-- ===== src/Tun/Datapath/Downlink/Delivery.antt =====
-- What the downlink of tun.rs hands to the OS side, and when its loop ends.
use ndn_mobile.Prelude.{◌≤◌, ◌≡◌, ◌≢◌, refl, sym, ap, ◌∙◌, arith, Bool, true, false, ◌||◌}
use ndn_mobile.Prelude.{
  Option, none, some, List, [], ◌∷◌, ◌++◌, append_assoc, append-nil, ltb, length, length-append,
  ltb→lt, Bool-cases, inl, inr, subst,
}
use ndn_mobile.Tun.Datapath.Uplink.{tun_queue_cap}
use ndn_mobile.Tun.Datapath.Downlink.{
  Phase, subscribing, receiving, sending, pausing, stopped, Downlink, DownlinkEvent, subscribed,
  received, failed, resumed, slept, cancelled, next, dropped, start, deliver, dispatch, take_next,
  step, run,
}

module _ {Packet : Type 0} where
  abbrev listed : Option Packet → List Packet
  listed none = []
  listed (some ip) = ip ∷ []

  -- The packet of a Data that comes while the task waits for one, whatever room there is.
  unfoldable pub came : DownlinkEvent Packet → Phase Packet → List Packet
  came (received o) receiving = listed o
  came _ _ = []

  unfoldable pub arrived : Downlink Packet → List (DownlinkEvent Packet) → List Packet
  unfolding came
  arrived d [] = []
  arrived d (e ∷ es) = came e d.phase ++ arrived (step d e) es

  abbrev pub held : Phase Packet → List Packet
  held (sending ip) = ip ∷ []
  held _ = []

  -- What the OS side has read, what waits for it and a packet at most are `packets`, in order. That
  -- packet is the one that the task holds, and is lost only with the end of the loop.
  pub record IsDelivered (d : Downlink Packet) (packets : List Packet) : Type 0 where
    pub rest : List Packet
    pub all : (d.written ++ d.queue) ++ rest ≡ packets
    pub one : length rest ≤ 1
    pub is_held : d.phase ≢ stopped → rest ≡ held d.phase
    pub bounded : length d.queue ≤ tun_queue_cap

  -- A packet that the task has in hand, on its way into the channel.
  deliver-IsDelivered :
      (ip : Packet) (d : Downlink Packet) (packets : List Packet)
      → (d.written ++ d.queue) ++ (ip ∷ []) ≡ packets
      → length d.queue ≤ tun_queue_cap
      → IsDelivered (deliver ip d) packets
  unfolding deliver
  deliver-IsDelivered ip d packets q b = elim (Bool-cases d.os_gone) [
    | inl g ↦ rw g (record {
      rest = ip ∷ [];
      all = q;
      one = omega arith;
      is_held = λ p. absurd (p refl);
      bounded = b;
    })
    | inr g ↦ elim (Bool-cases (ltb (length d.queue) tun_queue_cap)) [
      | inl room ↦
          rw (g, room)
            (record {
              rest = [];
              all = append-nil _ ∙ sym (append_assoc d.written d.queue (ip ∷ [])) ∙ q;
              one = omega arith;
              is_held = λ p. refl;
              bounded = omega (
                arith,
                length-append d.queue (ip ∷ []),
                ltb→lt (length d.queue) tun_queue_cap room,
              );
            })
      | inr full ↦
          rw (g, full)
            (record {
              rest = ip ∷ [];
              all = q;
              one = omega arith;
              is_held = λ p. refl;
              bounded = b;
            })
    ]
  ]

  same :
      (d : Downlink Packet) (packets : List Packet)
      → IsDelivered d packets
      → IsDelivered d (packets ++ [])
  same d packets i = record {
    rest = i.rest;
    all = i.all ∙ sym (append-nil packets);
    one = i.one;
    is_held = i.is_held;
    bounded = i.bounded;
  }

  -- The task goes on with empty hands.
  moves :
      (d : Downlink Packet) (phase : Phase Packet) (packets : List Packet)
      → IsDelivered d packets
      → d.phase ≢ stopped
      → held d.phase ≡ []
      → held phase ≡ []
      → IsDelivered (record d { phase = phase }) (packets ++ [])
  moves d phase packets i going empty empty' = record {
    rest = i.rest;
    all = i.all ∙ sym (append-nil packets);
    one = i.one;
    is_held = λ p. i.is_held going ∙ empty ∙ sym empty';
    bounded = i.bounded;
  }

  dispatch-IsDelivered :
      (phase : Phase Packet) (e : DownlinkEvent Packet) (d : Downlink Packet)
      (packets : List Packet)
      → d.phase ≡ phase
      → IsDelivered d packets
      → IsDelivered (dispatch phase e d) (packets ++ came e phase)
  unfolding dispatch came
  dispatch-IsDelivered stopped cancelled d packets q i = same d packets i
  dispatch-IsDelivered stopped e d packets q i = same d packets i
  dispatch-IsDelivered (sending ip) resumed d packets q i =
      deliver-IsDelivered ip d (packets ++ [])
        (ap (λ r. (d.written ++ d.queue) ++ r) (sym (i.is_held (λ p. cc) ∙ ap held q))
          ∙ i.all
          ∙ sym (append-nil packets))
        i.bounded
  dispatch-IsDelivered (sending ip) e d packets q i = same d packets i
  dispatch-IsDelivered subscribing cancelled d packets q i =
      moves d stopped packets i (λ p. cc) (ap held q) refl
  dispatch-IsDelivered receiving cancelled d packets q i =
      moves d stopped packets i (λ p. cc) (ap held q) refl
  dispatch-IsDelivered pausing cancelled d packets q i =
      moves d stopped packets i (λ p. cc) (ap held q) refl
  dispatch-IsDelivered subscribing (subscribed true) d packets q i =
      moves d receiving packets i (λ p. cc) (ap held q) refl
  dispatch-IsDelivered subscribing (subscribed false) d packets q i =
      moves d pausing packets i (λ p. cc) (ap held q) refl
  dispatch-IsDelivered receiving (received (some ip)) d packets q i =
      deliver-IsDelivered ip d (packets ++ (ip ∷ []))
        (ap (λ r. r ++ (ip ∷ []))
          (sym (append-nil _)
            ∙ ap (λ r. (d.written ++ d.queue) ++ r) (sym (i.is_held (λ p. cc) ∙ ap held q))
            ∙ i.all))
        i.bounded
  dispatch-IsDelivered receiving (received none) d packets q i = same d packets i
  dispatch-IsDelivered receiving failed d packets q i =
      moves d pausing packets i (λ p. cc) (ap held q) refl
  dispatch-IsDelivered pausing slept d packets q i =
      moves d subscribing packets i (λ p. cc) (ap held q) refl
  dispatch-IsDelivered phase e d packets q i = same d packets i

  next-IsDelivered :
      (d : Downlink Packet) (queue packets : List Packet)
      → d.queue ≡ queue
      → IsDelivered d packets
      → IsDelivered (take_next queue d).0 (packets ++ [])
  unfolding take_next
  next-IsDelivered d [] packets q i = same d packets i
  next-IsDelivered d (ip ∷ queue) packets q i = record {
    rest = i.rest;
    all =
        ap (λ r. r ++ i.rest)
          (append_assoc d.written (ip ∷ []) queue ∙ ap (λ r. d.written ++ r) (sym q))
        ∙ i.all
        ∙ sym (append-nil packets);
    one = i.one;
    is_held = i.is_held;
    bounded = omega (arith, i.bounded, ap length q);
  }

  step-IsDelivered :
      (d : Downlink Packet) (e : DownlinkEvent Packet) (packets : List Packet)
      → IsDelivered d packets
      → IsDelivered (step d e) (packets ++ came e d.phase)
  unfolding step came
  step-IsDelivered d next packets i = next-IsDelivered d d.queue packets refl i
  step-IsDelivered d dropped packets i = record {
    rest = i.rest;
    all = i.all ∙ sym (append-nil packets);
    one = i.one;
    is_held = i.is_held;
    bounded = i.bounded;
  }
  step-IsDelivered d e packets i = dispatch-IsDelivered d.phase e d packets refl i

  run-IsDelivered :
      (es : List (DownlinkEvent Packet)) (d : Downlink Packet) (packets : List Packet)
      → IsDelivered d packets
      → IsDelivered (run d es) (packets ++ arrived d es)
  unfolding run arrived
  run-IsDelivered [] d packets i = same d packets i
  run-IsDelivered (e ∷ es) d packets i =
      subst (IsDelivered (run (step d e) es)) (append_assoc packets (came e d.phase) _)
        (run-IsDelivered es (step d e) (packets ++ came e d.phase) (step-IsDelivered d e packets i))

  start-IsDelivered : IsDelivered start []
  start-IsDelivered = record {
    rest = [];
    all = refl;
    one = omega arith;
    is_held = λ p. refl;
    bounded = omega arith;
  }

  -- After any events, what the OS side has read, what waits for it and a packet at most are the
  -- packets that came while the task received, in order, each once, however full the channel was.
  -- That packet is held for the channel, and is lost only with the end of the loop; and no more than
  -- the channel's capacity waits.
  pub run_delivers :
      (es : List (DownlinkEvent Packet)) → IsDelivered (run start es) (arrived start es)
  run_delivers es = run-IsDelivered es start [] start-IsDelivered

  -- The event ends the loop, or lets the next packet end it.
  abbrev ends : DownlinkEvent Packet → Bool
  ends cancelled = true
  ends dropped = true
  ends _ = false

  unfoldable pub any_end : List (DownlinkEvent Packet) → Bool
  any_end [] = false
  any_end (e ∷ es) = ends e || any_end es

  step_goes_on :
      (d : Downlink Packet) (e : DownlinkEvent Packet)
      → d.os_gone ≡ false
      → d.phase ≢ stopped
      → ends e ≡ false
      → ((step d e).os_gone ≡ false) × ((step d e).phase ≢ stopped)
  unfolding step
  step_goes_on d (received (some ip)) g p h = ground arith
  step_goes_on d e g p h = ground arith

  run_goes_on :
      (es : List (DownlinkEvent Packet)) (d : Downlink Packet)
      → d.os_gone ≡ false
      → d.phase ≢ stopped
      → any_end es ≡ false
      → ((run d es).os_gone ≡ false) × ((run d es).phase ≢ stopped)
  unfolding run any_end
  run_goes_on [] d g p h = (g, p)
  run_goes_on (e ∷ es) d g p h =
      let (g', p') = step_goes_on d e g p (ground arith) in
      run_goes_on es (step d e) g' p' (ground arith)

  -- The events after which the task receives again, from where it waits: at `send`, the OS side reads
  -- a packet, and the task wakes up.
  abbrev pub recovery : Phase Packet → List (DownlinkEvent Packet)
  recovery subscribing = subscribed true ∷ []
  recovery pausing = slept ∷ subscribed true ∷ []
  recovery (sending ip) = next ∷ resumed ∷ []
  recovery _ = []

  delivers_next :
      (ip : Packet) (d : Downlink Packet) (queue : List Packet)
      → d.queue ≡ queue
      → d.os_gone ≡ false
      → length queue ≤ tun_queue_cap
      → (deliver ip (take_next queue d).0).phase ≡ receiving
  unfolding deliver take_next
  delivers_next ip d [] q g b = ground (arith, q)
  delivers_next ip d (x ∷ queue) q g b = ground arith

  next_waits : (queue : List Packet) (d : Downlink Packet) → (take_next queue d).0.phase ≡ d.phase
  unfolding take_next
  next_waits [] d = refl
  next_waits (x ∷ queue) d = refl

  recovers :
      (phase : Phase Packet) (d : Downlink Packet)
      → d.phase ≡ phase
      → phase ≢ stopped
      → d.os_gone ≡ false
      → length d.queue ≤ tun_queue_cap
      → (run d (recovery phase)).phase ≡ receiving
  unfolding run step dispatch
  recovers subscribing d q p g b = ground (arith, q)
  recovers receiving d q p g b = q
  recovers (sending ip) d q p g b =
      ap (λ ph. (dispatch ph resumed (take_next d.queue d).0).phase) (next_waits d.queue d ∙ q)
      ∙ delivers_next ip d d.queue refl g b
  recovers pausing d q p g b = ground (arith, q)
  recovers stopped d q p g b = absurd (p refl)

  -- Neither errors of the subscription nor a full channel end the task: as long as it is not
  -- cancelled and the OS side is there, after any events it receives again after one successful
  -- `subscribe`, with a pause before it at most, or once the OS side has read a packet.
  pub run_recovers :
      (es : List (DownlinkEvent Packet))
      → any_end es ≡ false
      → (run (run start es) (recovery (run start es).phase)).phase ≡ receiving
  run_recovers es h =
      let (g, p) = run_goes_on es start refl (λ e. cc) h in
      recovers (run start es).phase (run start es) refl p g (run_delivers es).bounded
