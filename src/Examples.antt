-- ===== src/Examples.antt =====
-- Concrete inputs for the theorems, and each theorem at one of them.
mod Runs
mod Watches
mod Approvals
mod Outcomes
mod Evidence
mod Canary
mod Registers
mod Routes
use vice_ceo_proof_carrying.Events.Decode.Strict.{IsAccepted}
use vice_ceo_proof_carrying.Events.Types.{
  SyntheticEvent, demo_source, event_fields, event_schema_version, support_event_type,
}
use vice_ceo_proof_carrying.Fixtures.{password_reset_id}
use vice_ceo_proof_carrying.Json.{object}
use vice_ceo_proof_carrying.Outcome.{ok}
use vice_ceo_proof_carrying.Prelude.{
  Bool-cases, Option, String, [], ap, code, false, if◌then◌else◌, inl, inr, nat_eq, none, refl,
  some, string_eq, suc, true, zero, ℕ, ◌==◌, ◌≡◌,
}
use vice_ceo_proof_carrying.Runtime.{Datetime, IsRuntime, IsoTime, Runtime, iso_invalid, iso_time}
use vice_ceo_proof_carrying.Text.{append, is_ascii, is_blank, is_space, lstrip, rstrip, strip}
use vice_ceo_proof_carrying.Warrants.Types.{CapabilityControlState, global_kill_switch_engaged}

-- The UTC form of an instant, in the examples: a mark for each tick.
unfoldable ticks : ℕ → String
unfolding append
ticks zero = "Z"
ticks (suc t) = append "." (ticks t)

unfoldable one_more : Option ℕ → Option ℕ
one_more none = none
one_more (some n) = some (suc n)

unfoldable read_ticks : String → Option ℕ
unfolding one_more
read_ticks String.[] = none
read_ticks (String.◌∷◌ c s) =
    let rest = read_ticks s in if code c == 46 then one_more rest else some 0

unfoldable zoned : Option ℕ → IsoTime
zoned none = iso_invalid
zoned (some t) = iso_time (record { aware = true; instant = t })

-- Digests are the text itself; a signature is the signed text, if that is ASCII.
unfoldable demo_hmac : String → String → String
unfolding is_ascii
demo_hmac key payload = if is_ascii payload then payload else "0"

abbrev demo_event : SyntheticEvent
demo_event = record {
  event_id = "e1";
  event_type = support_event_type;
  source = demo_source;
  case_id = password_reset_id;
  occurred_at = "..Z";
  schema_version = event_schema_version;
}

abbrev demo_runtime : Runtime
demo_runtime = record {
  sha256 = λ s. s;
  hmac_sha256 = demo_hmac;
  isoformat = ticks;
  format_utc = ticks;
  parse_iso = λ s. zoned (read_ticks s);
  local_instant = λ t. t;
  encode_data = λ s. s;
  decode_data = λ j. ok (object (event_fields demo_event));
}

demo_hmac-is_ascii : (key payload : String) → is_ascii (demo_hmac key payload) ≡ true
unfolding demo_hmac is_ascii
demo_hmac-is_ascii key payload = elim (Bool-cases (is_ascii payload)) [
  | inl good ↦ rw good good
  | inr bad ↦ rw bad refl
]

ticks_shown : (t : ℕ) → is_blank (ticks t) ≡ false
unfolding ticks append is_blank is_space
ticks_shown zero = refl
ticks_shown (suc t) = refl

rstrip-ticks : (t : ℕ) → rstrip (ticks t) ≡ ticks t
unfolding ticks append rstrip is_blank is_space
rstrip-ticks zero = refl
rstrip-ticks (suc t) = ap (append ".") (rstrip-ticks t)

strip-ticks : (t : ℕ) → strip (ticks t) ≡ ticks t
unfolding ticks append strip lstrip is_space
strip-ticks zero = rstrip-ticks zero
strip-ticks (suc t) = rstrip-ticks (suc t)

read-ticks : (t : ℕ) → read_ticks (ticks t) ≡ some t
unfolding ticks append read_ticks one_more
read-ticks zero = refl
read-ticks (suc t) = rw (read-ticks t) refl

demo_runtime-IsRuntime : IsRuntime demo_runtime
unfolding zoned
demo_runtime-IsRuntime = record {
  hmac_ascii = demo_hmac-is_ascii;
  format_shown = ticks_shown;
  strip-format = strip-ticks;
  parse-format = λ t. rw (read-ticks t) refl;
}

no_collision : (a b : String) → demo_runtime.sha256 a ≡ demo_runtime.sha256 b → a ≡ b
no_collision a b h = h

abbrev noon : Datetime
noon = record { aware = true; instant = 2 }

abbrev one_past : Datetime
one_past = record { aware = true; instant = 3 }

abbrev all_on : CapabilityControlState
all_on = record { global_kill_switch_engaged = false; disabled_capabilities = [] }

abbrev all_off : CapabilityControlState
all_off = record { global_kill_switch_engaged = true; disabled_capabilities = [] }

demo-IsAccepted : IsAccepted demo_runtime demo_event
unfolding is_blank is_space strip lstrip rstrip ticks append
demo-IsAccepted = record {
  schema = refl;
  demo = refl;
  support = refl;
  registered = refl;
  identified = refl;
  stripped = refl;
  moment = 2;
  in_utc = refl;
}
