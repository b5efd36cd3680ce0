-- ===== src/Comms/Silence.antt =====
-- What `HandComms::read` counts and latches over a sequence of control cycles.
use aidin_hand2_sdk.Base.{
  ℕ, ◌+◌, ◌≤◌, ◌≡◌, refl, ◌∙◌, ap, fun_ext, Bool, true, false, not, ◌&&◌, ◌||◌, ltb, if◌then◌else◌,
  arith, List, [], ◌∷◌, Bool-cases, inl, inr,
}
use aidin_hand2_sdk.Base.Arrays.{all_below}
use aidin_hand2_sdk.Base.Bits.{is_set}
use aidin_hand2_sdk.Base.Lists.{length}
use aidin_hand2_sdk.Cia402.{quick_stop_active}
use aidin_hand2_sdk.Protocol.Frames.{StateFrames, no_state_frames, actuator_count}
use aidin_hand2_sdk.Protocol.Ids.{CanAbi, CanFrame, HandCanIds}
use aidin_hand2_sdk.Protocol.Codec.{decode}
use aidin_hand2_sdk.Protocol.Decoding.{decode-same}
use aidin_hand2_sdk.Protocol.Observation.{no_observation, no_actuator_health}
use aidin_hand2_sdk.Comms.Session.{HandComms, is_decoded, reset_session}
use aidin_hand2_sdk.Comms.Cycle.{receive, drain, count_cycle, read, uint32_max, quick_stop_attained}

module _ (abi : CanAbi) where
  -- Whether a frame is decoded does not depend on what was stored before.
  decode-result :
      (ids : HandCanIds) (rx : CanFrame) (a b : StateFrames)
      → is_decoded (decode abi ids rx a).1 ≡ is_decoded (decode abi ids rx b).1
  decode-result ids rx a b = ap is_decoded (decode-same abi ids rx a b)

  -- Some frame of a queue is decoded.
  abbrev pub hears : HandCanIds → List CanFrame → Bool
  hears ids [] = false
  hears ids (rx ∷ queue) = is_decoded (decode abi ids rx no_state_frames).1 || hears ids queue

  -- What the loop of `read` leaves alone, and its flag.
  record Drained (ids : HandCanIds) (queue : List CanFrame) (s t : HandComms × Bool) : Type 0 where
    same_ids : t.0.ids ≡ s.0.ids
    same_connected : t.0.is_connected ≡ s.0.is_connected
    same_count : t.0.cycles_since_last_frame ≡ s.0.cycles_since_last_frame
    same_seen : t.0.quick_stop_seen_high ≡ s.0.quick_stop_seen_high
    same_disabled : t.0.actuator_disabled ≡ s.0.actuator_disabled
    flag : t.1 ≡ (s.1 || hears ids queue)

  receive-Drained :
      (rx : CanFrame) (h : HandComms) (any : Bool)
      → Drained h.ids (rx ∷ []) (h, any) (receive abi rx (h, any))
  unfolding receive
  receive-Drained rx h any = elim (Bool-cases (is_decoded (decode abi h.ids rx h.rx_frames).1)) [
    | inl e ↦ rw e (record {
      same_ids = refl;
      same_connected = refl;
      same_count = refl;
      same_seen = refl;
      same_disabled = refl;
      flag = ground (arith, e, decode-result h.ids rx h.rx_frames no_state_frames);
    })
    | inr e ↦ rw e (record {
      same_ids = refl;
      same_connected = refl;
      same_count = refl;
      same_seen = refl;
      same_disabled = refl;
      flag = ground (arith, e, decode-result h.ids rx h.rx_frames no_state_frames);
    })
  ]

  drain-Drained :
      (queue : List CanFrame) (h : HandComms) (any : Bool)
      → Drained h.ids queue (h, any) (drain abi queue (h, any))
  unfolding drain
  drain-Drained [] h any = record {
    same_ids = refl;
    same_connected = refl;
    same_count = refl;
    same_seen = refl;
    same_disabled = refl;
    flag = ground arith;
  }
  drain-Drained (rx ∷ queue) h any =
      let t = receive abi rx (h, any) in
      let first = receive-Drained rx h any in
      let rest = drain-Drained queue t.0 t.1 in
      record {
        same_ids = rest.same_ids ∙ first.same_ids;
        same_connected = rest.same_connected ∙ first.same_connected;
        same_count = rest.same_count ∙ first.same_count;
        same_seen = rest.same_seen ∙ first.same_seen;
        same_disabled = rest.same_disabled ∙ first.same_disabled;
        flag = rest.flag ∙ flags rx queue (ap (λ i. hears i queue) first.same_ids) first.flag;
      }
    where
      flags :
          (rx : CanFrame) (queue : List CanFrame)
          → hears (receive abi rx (h, any)).0.ids queue ≡ hears h.ids queue
          → (receive abi rx (h, any)).1 ≡ (any || hears h.ids (rx ∷ []))
          → ((receive abi rx (h, any)).1 || hears (receive abi rx (h, any)).0.ids queue)
            ≡ (any || hears h.ids (rx ∷ queue))
      flags rx queue a b = ground (arith, a, b)

  -- The session's state after the read of one cycle, and of several, each with what the socket held.
  abbrev pub after_read : List CanFrame → HandComms → HandComms
  after_read queue h = (read abi queue h no_observation no_actuator_health).comms

  pub after_reads : List (List CanFrame) → HandComms → HandComms
  after_reads [] h = h
  after_reads (queue ∷ queues) h = after_reads queues (after_read queue h)

  pub record Counted (queue : List CanFrame) (h t : HandComms) : Type 0 where
    pub connected : t.is_connected ≡ true
    pub same_ids : t.ids ≡ h.ids
    pub same_disabled : t.actuator_disabled ≡ h.actuator_disabled
    pub count : t.cycles_since_last_frame ≡ (
        if hears h.ids queue
        then 0
        else if ltb h.cycles_since_last_frame uint32_max
        then h.cycles_since_last_frame + 1
        else h.cycles_since_last_frame)
    pub seen :
        (i : ℕ)
        → t.quick_stop_seen_high i
          ≡ (is_set (t.rx_frames.status_word i) quick_stop_active || h.quick_stop_seen_high i)

  after_read-counts :
      (queue : List CanFrame) (h : HandComms)
      → h.is_connected ≡ true
      → after_read queue h ≡ count_cycle (drain abi queue (h, false))
  unfolding read
  after_read-counts queue h up = rw up refl

  pub after_read-Counted :
      (queue : List CanFrame) (h : HandComms)
      → h.is_connected ≡ true
      → Counted queue h (after_read queue h)
  unfolding count_cycle
  after_read-Counted queue h up =
      let d = drain-Drained queue h false in
      rw (after_read-counts queue h up) (record {
        connected = d.same_connected ∙ up;
        same_ids = d.same_ids;
        same_disabled = d.same_disabled;
        count = ground (arith, d.flag, d.same_count);
        seen = λ i.
            ap
              (λ s.
                is_set ((drain abi queue (h, false)).0.rx_frames.status_word i) quick_stop_active
                || s i)
              d.same_seen;
      })

  abbrev pub all_quiet : HandCanIds → List (List CanFrame) → Bool
  all_quiet ids [] = true
  all_quiet ids (queue ∷ queues) = not (hears ids queue) && all_quiet ids queues

  -- The counter after silent cycles.
  quiet-count :
      (queues : List (List CanFrame)) (h : HandComms)
      → h.is_connected ≡ true
      → all_quiet h.ids queues ≡ true
      → h.cycles_since_last_frame + length queues ≤ uint32_max
      → (after_reads queues h).cycles_since_last_frame ≡ h.cycles_since_last_frame + length queues
  unfolding after_reads
  quiet-count [] h up quiet bound = omega arith
  quiet-count (queue ∷ queues) h up quiet bound =
      let t = after_read-Counted queue h up in
      let count : (after_read queue h).cycles_since_last_frame ≡ h.cycles_since_last_frame + 1 =
        ground (arith, t.count, quiet) in
      let still : all_quiet (after_read queue h).ids queues ≡ true =
        rw t.same_ids (ground (arith, quiet)) in
      let rest = quiet-count queues (after_read queue h) t.connected still (omega (arith, count)) in
      omega (arith, rest, count)

  -- After a cycle in which some received frame was decoded, `cycles_since_last_frame` is the number of
  -- cycles that followed without one, up to UINT32_MAX of them: unknown frames, error frames, short
  -- frames and another master's commands do not reset it.
  pub silence-length :
      (heard : List CanFrame) (quiet : List (List CanFrame)) (h : HandComms)
      → h.is_connected ≡ true
      → hears h.ids heard ≡ true
      → all_quiet h.ids quiet ≡ true
      → length quiet ≤ uint32_max
      → (after_reads quiet (after_read heard h)).cycles_since_last_frame ≡ length quiet
  silence-length heard quiet h up hear silent bound =
      let t = after_read-Counted heard h up in
      let zero : (after_read heard h).cycles_since_last_frame ≡ 0 = ground (arith, t.count, hear) in
      let rest =
        quiet-count quiet (after_read heard h) t.connected (rw t.same_ids silent)
          (omega (arith, zero)) in
      omega (arith, rest, zero)

  -- Some read of the sequence ended with bit 5 of actuator i high.
  pub ever_high : List (List CanFrame) → HandComms → ℕ → Bool
  ever_high [] h i = false
  ever_high (queue ∷ queues) h i =
      is_set ((after_read queue h).rx_frames.status_word i) quick_stop_active
      || ever_high queues (after_read queue h) i

  after_reads-seen :
      (queues : List (List CanFrame)) (h : HandComms) (i : ℕ)
      → h.is_connected ≡ true
      → ((after_reads queues h).quick_stop_seen_high i
          ≡ (h.quick_stop_seen_high i || ever_high queues h i))
        × ((after_reads queues h).actuator_disabled ≡ h.actuator_disabled)
  unfolding after_reads ever_high
  after_reads-seen [] h i up = (ground arith, refl)
  after_reads-seen (queue ∷ queues) h i up =
      let t = after_read-Counted queue h up in
      let (seen, disabled) = after_reads-seen queues (after_read queue h) i t.connected in
      (ground (arith, seen, t.seen i), disabled ∙ t.same_disabled)

  -- In a session since its connect, the quick stop counts as attained exactly if every actuator is
  -- disabled, or has bit 5 of its latest status word low, or never had it high after any read of the
  -- session. So a drive that was not heard in this session neither blocks nor confirms a stop.
  pub quick_stop_attained-session :
      (queues : List (List CanFrame)) (h : HandComms)
      → let opened = reset_session abi h in
        let now = after_reads queues opened in
        quick_stop_attained now
        ≡ all_below actuator_count (λ i.
          h.actuator_disabled i
          || not (ever_high queues opened i)
          || not (is_set (now.rx_frames.status_word i) quick_stop_active))
  unfolding quick_stop_attained
  quick_stop_attained-session queues h = ap (all_below actuator_count) (
      fun_ext (λ i.
        ground (arith, after_reads-seen queues (reset_session abi h) i (opened h), fresh h i)))
    where
      opened : (h : HandComms) → (reset_session abi h).is_connected ≡ true
      opened h = unfold reset_session in refl

      fresh :
          (h : HandComms) (i : ℕ)
          → ((reset_session abi h).quick_stop_seen_high i ≡ false)
            × ((reset_session abi h).actuator_disabled i ≡ h.actuator_disabled i)
      fresh h i = unfold reset_session in (refl, refl)
