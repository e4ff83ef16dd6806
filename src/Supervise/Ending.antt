-- ===== src/Supervise/Ending.antt =====
-- The last record of a supervised run.
use infra_loop_kda.Base.{◌≡◌, Bool, true, false, not, ◌&&◌, pos, negsuc, ℤ, String, is_negative}
use infra_loop_kda.Json.{bool, int, text, Fields, get}
use infra_loop_kda.Json.Laws.{get-put}
use infra_loop_kda.Supervise.{final_record, Drained}

-- The state that the last record names.
abbrev pub end_state : ℤ → Bool → String
end_state code true = "cancelled"
end_state (pos n) false = "exited"
end_state (negsuc n) false = "signalled"

-- What the last record says of the return code, of a cancellation and of the record before it.
pub record Ended (code : ℤ) (was_sent : Bool) (m last : Fields) : Type 0 where
  pub state : get "state" last ≡ text (end_state code was_sent)
  pub code_is : get "exit_code" last ≡ int code
  pub normally : get "exited_normally" last ≡ bool (not (is_negative code) && not was_sent)
  pub kept : get "cancelled" last ≡ get "cancelled" m

pub final_record-Ended :
    (code : ℤ) (was_sent : Bool) (drained : Bool × Drained) (utc note : String) (m : Fields)
    → Ended code was_sent m (final_record code was_sent drained utc note m)
unfolding final_record
final_record-Ended (pos n) true drained utc note m = record {
  state = simp get-put;
  code_is = simp get-put;
  normally = simp get-put;
  kept = simp get-put;
}
final_record-Ended (pos n) false drained utc note m = record {
  state = simp get-put;
  code_is = simp get-put;
  normally = simp get-put;
  kept = simp get-put;
}
final_record-Ended (negsuc n) true drained utc note m = record {
  state = simp get-put;
  code_is = simp get-put;
  normally = simp get-put;
  kept = simp get-put;
}
final_record-Ended (negsuc n) false drained utc note m = record {
  state = simp get-put;
  code_is = simp get-put;
  normally = simp get-put;
  kept = simp get-put;
}
