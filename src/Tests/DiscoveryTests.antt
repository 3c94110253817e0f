-- ===== src/Tests/DiscoveryTests.antt =====
-- Runs of the presence table and of the JSON writer.
use ndn_mobile.Prelude.{ℕ, ◌≡◌, refl, arith, false, none, some, List, [], ◌∷◌, ◌++◌, drop, map}
use ndn_mobile.Text.{codes, cmp}
use ndn_mobile.Text.Map.{lookup, insert}
use ndn_mobile.Text.Print.{pos, negsuc, decimal, signed}
use ndn_mobile.Json.{escape, push_chars, push_json_str}
use ndn_mobile.Json.Reader.{read_string, clean, read_string-push_json_str}
use ndn_mobile.Discovery.{
  PeerEntry, Event, beacon, interest, new, note_peer, fresh_entry, or_insert_with, or_else, refresh,
  alive, retain, push_faces, push_infra, push_peer, push_peers, snapshot_json, step, run,
}
use ndn_mobile.Discovery.Presence.{
  heard, recent, listed, IsChronological, run_lists_recent, run_never_lists_self,
}

read_string-push_json_str_example :
    read_string (drop 1 (push_json_str (codes "[") (codes "a\"b\\\n") ++ codes "]"))
    ≡ some (map clean (codes "a\"b\\\n"), codes "]")
read_string-push_json_str_example =
    read_string-push_json_str (codes "[") (codes "a\"b\\\n") (codes "]")

abbrev iter : List (List ℕ × PeerEntry) → List (List ℕ × PeerEntry)
iter m = m

-- Bob is heard on two faces, and the node's own beacon comes back.
abbrev events : List Event
events =
    beacon 1000000 (codes "bob") (codes "Bob") (codes "ble") (negsuc 59) none
    ∷ beacon 2000000 (codes "me") (codes "Me") (codes "ble") (pos 0) none
    ∷ interest 3000000
    ∷ beacon 4000000 (codes "bob") [] (codes "aware") (negsuc 49) (some (codes "10.0.0.2"))
    ∷ []

in_order : IsChronological 0 events 40000000000
in_order = (omega arith, (omega arith, (omega arith, (omega arith, omega arith))))

run_lists_recent_example :
    listed (
      lookup
        (codes "bob")
        (snapshot_json iter 40000000000 (run iter events (new (codes "me") (codes "Me")))).1.peers)
    ≡ recent 40000000000 (heard (codes "me") (codes "bob") none events)
run_lists_recent_example =
    run_lists_recent iter (codes "me") (codes "Me") (codes "bob") events 40000000000 in_order

run_never_lists_self_example :
    listed (
      lookup
        (codes "me")
        (snapshot_json iter 40000000000 (run iter events (new (codes "me") (codes "Me")))).1.peers)
    ≡ false
unfolding cmp
run_never_lists_self_example =
    run_never_lists_self iter (codes "me") (codes "Me") (codes "me") events 40000000000 in_order
      refl

dataset :
    (snapshot_json iter 9000000 (run iter events (new (codes "me") (codes "Me")))).0
    ≡ codes
        "{\"self\":{\"id\":\"me\",\"label\":\"Me\"},\"peers\":[{\"id\":\"bob\",\"label\":\"Bob\",\"faces\":[\"aware\",\"ble\"],\"rssi\":-50,\"age_ms\":5,\"infra\":\"10.0.0.2\"}]}"
unfolding snapshot_json step new note_peer fresh_entry or_insert_with or_else refresh alive retain
    push_faces push_infra push_peer push_peers push_json_str push_chars escape decimal signed cmp
    lookup insert
dataset = refl
