-- ===== src/Comms/Connect.antt =====
-- When `HandComms::connect` succeeds, and what a session starts from.
use aidin_hand2_sdk.Base.{
  ap, ℕ, zero, suc, ◌+◌, ◌≡◌, refl, Bool, false, not, ◌&&◌, ◌||◌, arith, List, [], ◌∷◌, Option,
  none, some,
}
use Prim.Native.String.{String}
use aidin_hand2_sdk.Base.Arrays.{any_from, any_below}
use aidin_hand2_sdk.Protocol.Frames.{StateFrames, no_state_frames}
use aidin_hand2_sdk.Protocol.Ids.{CanAbi, CanFrame, HandCanIds}
use aidin_hand2_sdk.Protocol.Codec.{decode}
use aidin_hand2_sdk.Protocol.Decoding.{decode-same}
use aidin_hand2_sdk.Comms.Session.{
  HandComms, Channel, Bus, is_conflicting, watch_for, watch, probe_iterations, reset_session,
  connect_channel, connect_found, resolve, connect,
}
use aidin_hand2_sdk.Types.Error.{is_ok}

module _ (abi : CanAbi) (ids : HandCanIds) where
  -- A command of this hand, which only another master can have sent.
  abbrev pub is_foreign_command : CanFrame → Bool
  is_foreign_command rx = is_conflicting (decode abi ids rx no_state_frames).1

  abbrev pub any_foreign : List CanFrame → Bool
  any_foreign [] = false
  any_foreign (rx ∷ queue) = is_foreign_command rx || any_foreign queue

  decode-foreign :
      (rx : CanFrame) (frames : StateFrames)
      → is_conflicting (decode abi ids rx frames).1 ≡ is_foreign_command rx
  decode-foreign rx frames = ap is_conflicting (decode-same abi ids rx frames no_state_frames)

  watch_for-foreign :
      (queue : List CanFrame) (frames : StateFrames)
      → (watch_for is_conflicting abi ids queue frames).1 ≡ any_foreign queue
  unfolding watch_for
  watch_for-foreign [] frames = refl
  watch_for-foreign (rx ∷ queue) frames =
      ground (arith, decode-foreign rx frames, watch_for-foreign queue (decode abi ids rx frames).0)

  watch-foreign :
      (arrives : ℕ → List CanFrame) (n index : ℕ) (frames : StateFrames)
      → (watch is_conflicting abi ids arrives n index frames).1
        ≡ any_from n index (λ k. any_foreign (arrives k))
  unfolding watch any_from
  watch-foreign arrives zero index frames = refl
  watch-foreign arrives (suc n) index frames = ground (
    arith,
    watch_for-foreign (arrives index) frames,
    watch-foreign arrives n (index + 1) (watch_for is_conflicting abi ids (arrives index) frames).0,
  )

  -- A channel that the session can have for itself.
  abbrev pub is_free : Channel → Bool
  is_free channel =
      channel.opens
      && channel.takes_filters
      && channel.takes_error_mask
      && not (any_below probe_iterations (λ k. any_foreign (channel.probed k)))

  abbrev pub is_free_bus : Bus → Option String → Bool
  is_free_bus bus none = false
  is_free_bus bus (some name) = is_free (bus name)

module _ (abi : CanAbi) where
  connect_channel-is_free :
      (channel : Channel) (h : HandComms)
      → h.is_connected ≡ false
      → (is_ok (connect_channel abi channel h).1 ≡ is_free abi h.ids channel)
        × ((connect_channel abi channel h).0.is_connected ≡ is_free abi h.ids channel)
  unfolding connect_channel reset_session
  connect_channel-is_free channel h down =
      ground (arith, watch-foreign abi h.ids channel.probed probe_iterations 0 h.rx_frames)

  -- From a closed socket, `connect` succeeds exactly if the interface named, or found by the auto
  -- discovery, opens and takes the filters and the error mask, and no frame of the fifteen rounds of
  -- the probe is a command to this hand; and the socket is open afterwards exactly if it succeeded.
  pub connect-is_free :
      (bus : Bus) (candidates : List String) (h : HandComms)
      → h.is_connected ≡ false
      → (is_ok (connect abi bus candidates h).1
          ≡ is_free_bus abi h.ids bus (resolve abi bus candidates h))
        × ((connect abi bus candidates h).0.is_connected ≡ is_ok (connect abi bus candidates h).1)
  unfolding connect connect_found
  connect-is_free bus candidates h down = found (resolve abi bus candidates h)
    where
      found :
          (name : Option String)
          → (is_ok (connect_found abi bus name h).1 ≡ is_free_bus abi h.ids bus name)
            × ((connect_found abi bus name h).0.is_connected
                ≡ is_ok (connect_found abi bus name h).1)
      found none = (refl, down)
      found (some name) =
          ground (
            arith,
            connect_channel-is_free (bus name) (record h { interface_name = some name }) down,
          )
