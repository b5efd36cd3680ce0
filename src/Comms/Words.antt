-- ===== src/Comms/Words.antt =====
-- The control words that `HandComms::write` puts on the bus.
use aidin_hand2_sdk.Base.{ℕ}
use aidin_hand2_sdk.Protocol.Bytes.{read_word16_array}
use aidin_hand2_sdk.Comms.Session.{HandComms}

-- What actuator i's drive reads in the control word frame that is kept after a write.
abbrev pub word_on_wire : HandComms → ℕ → ℕ
word_on_wire h i = read_word16_array h.tx_frames.control_word.payload 0 i
