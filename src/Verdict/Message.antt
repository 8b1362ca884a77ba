-- ===== src/Verdict/Message.antt =====
-- The texts that `validity_reasons` (main.py) puts into its list.
use net_latency_lab.Base.{String, [], ◌∷◌}
use net_latency_lab.Python.Show.{concat, join, str_int}
use net_latency_lab.Verdict.Validity.{Reason}
use Prim.Native.String.{◌++◌ as str_append}

unfoldable pub message : Reason → String
unfolding join
message Reason.receives_exceed_submissions = "unique receives exceed successful submissions"
message Reason.processed_exceeds_submissions = "unique processed exceeds successful submissions"
message Reason.accounting_does_not_reconcile = "SPSC/processing accounting does not reconcile"
message (Reason.not_applied name) = str_append name " was not applied"
message Reason.sender_affinity_not_applied = "sender affinity was not applied"
message (Reason.socket_buffer_below_request side) =
    concat ("observed " ∷ side ∷ " socket buffer is below the request" ∷ [])
message Reason.receive_window_missing = "receive monotonic window is missing"
message Reason.processing_window_missing = "processing monotonic window is missing"
message Reason.application_backlog = "application backlog remained after the post-sender drain"
message Reason.socket_backlog = "kernel socket backlog remained after the post-sender drain"
message Reason.negative_counter_delta = "negative kernel or NIC counter delta"
message (Reason.pause_unavailable name) = str_append name " counter was unavailable"
message (Reason.pause_frames name delta) =
    concat ("802.3x pause frames were exchanged (" ∷ name ∷ " delta " ∷ str_int delta ∷ ")" ∷ [])
message Reason.receiver_throttled = "thermal/power throttling flag was nonzero"
message Reason.sender_throttled = "sender thermal/power throttling flag was nonzero"
message (Reason.metadata_unavailable label names) =
    concat (label ∷ " metadata unavailable: " ∷ join ", " names ∷ [])
