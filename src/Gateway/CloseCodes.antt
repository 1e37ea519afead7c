-- ===== src/Gateway/CloseCodes.antt =====
-- packages/gamebase-client/src/close-codes.ts, `classifyClose`.
use tslib.Common.{ℕ, String, eqb, if◌then◌else◌}

pub data GatewayChannelKind : Type 0 where
  lobby q : GatewayChannelKind

pub data CloseDispositionKind : Type 0 where
  reconnect stop aborted finished client_bug : CloseDispositionKind

pub record CloseDisposition : Type 0 where
  pub kind : CloseDispositionKind
  pub reason : String

abbrev pub replaced : ℕ
replaced = 4000

abbrev pub aborted_code : ℕ
aborted_code = 4001

abbrev pub idle_code : ℕ
idle_code = 4002

abbrev pub policy : ℕ
policy = 4003

abbrev pub channel_gone : ℕ
channel_gone = 4004

abbrev pub too_slow : ℕ
too_slow = 4005

abbrev to : CloseDispositionKind → String → CloseDisposition
to kind reason = record { kind = kind; reason = reason }

-- `lost` is the text for any other code.
unfoldable pub classify_close : (ℕ → String) → ℕ → GatewayChannelKind → CloseDisposition
classify_close lost code kind =
    if eqb code replaced
    then to stop "replaced by a newer connection"
    else (if eqb code aborted_code
        then (elim kind [
          | q ↦ to aborted "the game actor stopped responding"
          | lobby ↦ to stop "aborted"
        ])
        else (if eqb code idle_code
            then to reconnect "idle timeout"
            else (if eqb code policy
                then to client_bug "too many refused messages"
                else (if eqb code channel_gone
                    then to stop "channel expired or disabled"
                    else (if eqb code too_slow
                        then to reconnect "too slow; the outbound queue filled"
                        else (if eqb code 1000
                            then (elim kind [
                              | q ↦ to finished "the game dropped the connection"
                              | lobby ↦ to stop "closed normally"
                            ])
                            else (if eqb code 1001
                                then to reconnect "gateway restarting"
                                else (if eqb code 1003
                                    then to client_bug "binary frame sent"
                                    else (if eqb code 1009
                                        then to client_bug "frame too large"
                                        else (if eqb code 1011
                                            then to reconnect "gateway failed to enter the game"
                                            else to reconnect (lost code)))))))))))
