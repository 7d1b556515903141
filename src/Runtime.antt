-- ===== src/Runtime.antt =====
-- What the program takes from `hashlib`, `hmac`, `datetime` and the encoders: digests, the clock
-- and the wire format are parameters, with the laws that the code relies on.
use vice_ceo_proof_carrying.Json.{Json}
use vice_ceo_proof_carrying.Outcome.{Error, Result, ok, overflow_error, raise, value_error}
use vice_ceo_proof_carrying.Prelude.{
  Bool, String, arith, false, if◌then◌else◌, inl, inr, refl, true, ℕ, ◌≡◌, ◌⊎◌,
}
use vice_ceo_proof_carrying.Text.{is_ascii, is_blank, strip}

-- A `datetime`: with a time zone, its UTC instant; without one, the wall clock. In microseconds.
pub record Datetime : Type 0 where
  pub aware : Bool
  pub instant : ℕ

-- What `datetime.fromisoformat` makes of a text: a `ValueError`, a time, or a time, with a zone or
-- without one, for which `astimezone(timezone.utc)` raises `OverflowError`, since its UTC form is not
-- in the years 1 to 9999.
pub data IsoTime : Type 0 where
  iso_invalid : IsoTime
  iso_time : Datetime → IsoTime
  iso_beyond : Bool → IsoTime

abbrev pub date_overflow : Error
date_overflow = overflow_error "date value out of range"

pub record Runtime : Type 0 where
  -- `sha256(text.encode()).hexdigest()`
  pub sha256 : String → String
  -- `hmac.new(key, text.encode(), "sha256").hexdigest()`
  pub hmac_sha256 : String → String → String
  -- `value.isoformat()` of an aware value in UTC
  pub isoformat : ℕ → String
  -- `value.astimezone(timezone.utc).isoformat().replace("+00:00", "Z")` of an aware value
  pub format_utc : ℕ → String
  -- `datetime.fromisoformat(value.replace("Z", "+00:00"))`
  pub parse_iso : String → IsoTime
  -- the instant of a wall clock in the host's time zone: `astimezone` of a value without a zone
  pub local_instant : ℕ → ℕ
  -- `b64encode(text.encode("utf-8")).decode("ascii")`
  pub encode_data : String → String
  -- `loads(b64decode(value, validate=True).decode("utf-8"))`, or its exception: a `ValueError` for a
  -- text that is no base64, UTF-8 or JSON, a `TypeError` for a value that is no text, and what else
  -- it raises, as the `RecursionError` of `loads` for deep nesting
  pub decode_data : Json → Result Json

-- Documented behaviour of the libraries behind a `Runtime`: a hexadecimal digest is ASCII, the UTC
-- form has no white space, and `fromisoformat` reads what `isoformat` prints.
pub record IsRuntime (rt : Runtime) : Type 0 where
  pub hmac_ascii : (key payload : String) → is_ascii (rt.hmac_sha256 key payload) ≡ true
  pub format_shown : (t : ℕ) → is_blank (rt.format_utc t) ≡ false
  pub strip-format : (t : ℕ) → strip (rt.format_utc t) ≡ rt.format_utc t
  pub parse-format :
      (t : ℕ) → rt.parse_iso (rt.format_utc t) ≡ iso_time (record { aware = true; instant = t })

abbrev pub microseconds : ℕ
microseconds = 1000000

-- `_as_utc` and its kin: a clock value without a zone is refused with the given exception.
unfoldable pub as_utc : Error → Datetime → Result ℕ
as_utc e d = if d.aware then ok d.instant else raise e

-- `_parse_timestamp` of warrant_gateway.py.
unfoldable pub parse_timestamp : Runtime → String → Result ℕ
parse_timestamp rt value = elim (rt.parse_iso value) [
  | iso_invalid ↦ raise (value_error "Invalid isoformat string")
  | iso_time d ↦ ok (if d.aware then d.instant else rt.local_instant d.instant)
  | iso_beyond zoned ↦ raise date_overflow
]

printed : Runtime → Error → IsoTime → Result String
printed rt e iso_invalid = raise e
printed rt e (iso_time d) = if d.aware then ok (rt.format_utc d.instant) else raise e
printed rt e (iso_beyond zoned) = if zoned then raise date_overflow else raise e

-- `_normalize_timestamp`: a readable time with a zone, printed in UTC. Its `astimezone` may raise.
unfoldable pub normalize_timestamp : Runtime → Error → String → Result String
unfolding printed
normalize_timestamp rt e value = printed rt e (rt.parse_iso value)

printed_ok :
    (rt : Runtime) (x : Error) (o : IsoTime) {v : String}
    → printed rt x o ≡ ok v
    → (t : ℕ) × (v ≡ rt.format_utc t)
unfolding printed
printed_ok rt x iso_invalid h = absurd (cc h)
printed_ok rt x (iso_time d) h = (d.instant, ground arith)
printed_ok rt x (iso_beyond true) h = absurd (cc h)
printed_ok rt x (iso_beyond false) h = absurd (cc h)

-- What is printed is the UTC form of some instant.
pub normalize_timestamp_ok :
    (rt : Runtime) (x : Error) (s : String) {v : String}
    → normalize_timestamp rt x s ≡ ok v
    → (t : ℕ) × (v ≡ rt.format_utc t)
unfolding normalize_timestamp
normalize_timestamp_ok rt x s h = printed_ok rt x (rt.parse_iso s) h

printed_error :
    (rt : Runtime) (x : Error) (o : IsoTime) {y : Error}
    → printed rt x o ≡ raise y
    → (y ≡ x) ⊎ ((y ≡ date_overflow) × (o ≡ iso_beyond true))
unfolding printed
printed_error rt x iso_invalid h = inl (cc h)
printed_error rt x (iso_time d) h = inl (ground arith)
printed_error rt x (iso_beyond true) h = inr (cc h, refl)
printed_error rt x (iso_beyond false) h = inl (cc h)

-- It fails with the given exception, or with the overflow of a time with a zone.
pub normalize_timestamp_error :
    (rt : Runtime) (x : Error) (s : String) {y : Error}
    → normalize_timestamp rt x s ≡ raise y
    → (y ≡ x) ⊎ ((y ≡ date_overflow) × (rt.parse_iso s ≡ iso_beyond true))
unfolding normalize_timestamp
normalize_timestamp_error rt x s h = printed_error rt x (rt.parse_iso s) h

-- A time in UTC form is its own normal form.
pub normalize_timestamp-format_utc :
    (rt : Runtime)
    → IsRuntime rt
    → (x : Error) (t : ℕ) → normalize_timestamp rt x (rt.format_utc t) ≡ ok (rt.format_utc t)
unfolding normalize_timestamp
normalize_timestamp-format_utc rt laws x t = rw (laws.parse-format t)
