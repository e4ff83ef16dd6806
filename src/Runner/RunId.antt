-- ===== src/Runner/RunId.antt =====
-- tools/k3/runner.py: `validate_run_id` and `resolve_run_id`.
use Prim.Native.Char.{code}
use infra_loop_kda.Base.{
  ℕ, suc, zero, ◌≤◌, ◌≡◌, refl, String, ◌<>◌, Bool, true, false, not, ◌&&◌, ◌||◌, leb, nat_beq,
  ◌==◌, if◌then◌else◌, Option, none, some, arith,
}
use infra_loop_kda.Base.Text.{contains_char}
use infra_loop_kda.Base.Outcome.{Outcome, ok, err, ◌>>◌, require, tool_error}
use infra_loop_kda.Json.{text, Fields, get, truthy}
use infra_loop_kda.Json.Repr.{repr, str}

-- `[A-Za-z0-9]`
abbrev is_alnum : ℕ → Bool
is_alnum c = (leb b'A' c && leb c b'Z') || (leb b'a' c && leb c b'z') || (leb b'0' c && leb c b'9')

-- `[A-Za-z0-9._-]`
abbrev is_id_char : ℕ → Bool
is_id_char c = is_alnum c || nat_beq c b'.' || nat_beq c b'_' || nat_beq c b'-'

-- `[A-Za-z0-9._-]{0,n}` on the whole text
unfoldable pub id_rest : ℕ → String → Bool
id_rest n String.[] = true
id_rest zero (String.◌∷◌ c s) = false
id_rest (suc n) (String.◌∷◌ c s) = is_id_char (code c) && id_rest n s

-- `RUN_ID_RE.fullmatch`
unfoldable pub full_match : String → Bool
unfolding id_rest
full_match String.[] = false
full_match (String.◌∷◌ c s) = is_alnum (code c) && id_rest 127 s

-- `validate_run_id`
unfoldable pub validate_run_id : String → Outcome String
validate_run_id run_id = do
  require (not (run_id == "")) (tool_error "run id must be a non-empty string")
  require (not (run_id == "." || run_id == ".."))
      (tool_error ("run id must not be " <> repr (text run_id)))
  require (full_match run_id) (tool_error ("invalid run id " <> repr (text run_id)))
  ok run_id

-- The pointer `latest.json`, where the file is there.
unfoldable pub from_latest : Option Fields → Outcome String
unfolding validate_run_id
from_latest none = err (tool_error "no runs recorded; pass --run-id")
from_latest (some latest) =
    if truthy (get "run_id" latest)
    then validate_run_id (str (get "run_id" latest))
    else err (tool_error "run pointer does not record a run_id")

-- `resolve_run_id`: an identifier that the caller gives, or the one of the pointer.
unfoldable pub resolve_run_id : Option Fields → Option String → Outcome String
resolve_run_id latest (some run_id) =
    if run_id == "" then from_latest latest else validate_run_id run_id
resolve_run_id latest none = from_latest latest

abbrev pub characters : String → ℕ
characters String.[] = 0
characters (String.◌∷◌ c s) = suc (characters s)

slash_free : (n : ℕ) (s : String) → id_rest n s ≡ true → contains_char b'/' s ≡ false
unfolding id_rest contains_char
slash_free n String.[] h = refl
slash_free zero (String.◌∷◌ c s) h = cc
slash_free (suc n) (String.◌∷◌ c s) h = ground (arith, slash_free n s)

nul_free : (n : ℕ) (s : String) → id_rest n s ≡ true → contains_char 0 s ≡ false
unfolding id_rest contains_char
nul_free n String.[] h = refl
nul_free zero (String.◌∷◌ c s) h = cc
nul_free (suc n) (String.◌∷◌ c s) h = ground (arith, nul_free n s)

-- A single path component, of at most 128 characters, that is neither `.` nor `..`.
pub record IsRunId (run_id : String) : Type 0 where
  pub nonempty : (run_id == "") ≡ false
  pub not_dot : (run_id == ".") ≡ false
  pub not_dots : (run_id == "..") ≡ false
  pub no_slash : contains_char b'/' run_id ≡ false
  pub no_nul : contains_char 0 run_id ≡ false
  pub short : characters run_id ≤ 128

id_rest-le : (n : ℕ) (s : String) → id_rest n s ≡ true → characters s ≤ n
unfolding id_rest
id_rest-le n String.[] h = omega arith
id_rest-le zero (String.◌∷◌ c s) h = cc
id_rest-le (suc n) (String.◌∷◌ c s) h = omega (arith, id_rest-le n s (ground arith))

full_match-IsRunId :
    (s : String)
    → full_match s ≡ true
    → (s == "") ≡ false
    → (s == ".") ≡ false
    → (s == "..") ≡ false
    → IsRunId s
unfolding full_match contains_char
full_match-IsRunId String.[] h n d e = cc
full_match-IsRunId (String.◌∷◌ c s) h n d e =
    let rest : id_rest 127 s ≡ true = ground arith in
    record {
      nonempty = n;
      not_dot = d;
      not_dots = e;
      no_slash = ground (arith, slash_free 127 s);
      no_nul = ground (arith, nul_free 127 s);
      short = omega (arith, id_rest-le 127 s rest);
    }

-- What `validate_run_id` returns is its argument, a single path component of at most 128
-- characters, with no slash and no NUL, that is neither `.` nor `..`.
pub validate_run_id-IsRunId :
    (run_id : String) {id : String}
    → validate_run_id run_id ≡ ok id
    → (id ≡ run_id) × IsRunId run_id
unfolding validate_run_id
validate_run_id-IsRunId run_id h = (
  ground arith,
  full_match-IsRunId run_id (ground arith) (ground arith) (ground arith) (ground arith),
)
