-- ===== src/Validation/Prompts.antt =====
-- What the validator asks of a prompt: `_requests_exact_count` and `_requests_tracking` of
-- backend/src/vision_app/validation/validator.py, with `str.lower`, `in` on texts and the pattern
-- `\b\d+\b`, on the characters of ASCII.
use Prim.Native.Nat.{◌-◌}
use Prim.Native.Char.{Char, code}
use Prim.Native.String as Str
use Prim.Native.String.{char_at}
use vision_app_creator.Prelude.{
  ℕ, String, Bool, true, false, List, [], ◌∷◌, ◌&&◌, ◌||◌, leb, nat_eqb, any, starts_with,
  if◌then◌else◌,
}

abbrev is_between : ℕ → ℕ → ℕ → Bool
is_between a n b = leb a n && leb n b

abbrev is_upper : Char → Bool
is_upper c = is_between 65 (code c) 90

abbrev is_digit : Char → Bool
is_digit c = is_between 48 (code c) 57

-- `\w`
abbrev is_word : Char → Bool
is_word c = is_digit c || is_upper c || is_between 97 (code c) 122 || nat_eqb (code c) 95

abbrev lower_char : Char → Char
lower_char c = if is_upper c then char_at "abcdefghijklmnopqrstuvwxyz" (code c - 65) else c

-- `s.lower()`
unfoldable pub lower : String → String
lower Str.[] = Str.[]
lower (Str.◌∷◌ c s) = Str.◌∷◌ (lower_char c) (lower s)

-- `t in s`
unfoldable pub occurs_in : String → String → Bool
occurs_in t Str.[] = starts_with "" t
occurs_in t (Str.◌∷◌ c s) = starts_with (Str.◌∷◌ c s) t || occurs_in t s

-- Where a scan for `\b\d+\b` stands: outside a word, in one of digits only, in another one.
pub data Place : Type 0 where
  outside digits mixed : Place

is_digits : Place → Bool
is_digits outside = false
is_digits digits = true
is_digits mixed = false

step : Place → Char → Place
step outside c = if is_digit c then digits else mixed
step digits c = if is_digit c then digits else mixed
step mixed c = mixed

scan : Place → String → Bool
unfolding is_digits step
scan p Str.[] = is_digits p
scan p (Str.◌∷◌ c s) =
    let inside = scan (step p c) s in
    let after = scan outside s in if is_word c then inside else is_digits p || after

unfoldable pub has_number : String → Bool
unfolding scan
has_number s = scan outside s

abbrev pub count_markers : List String
count_markers =
    "exactly" ∷ "precise count" ∷ "exact count" ∷ "count exactly" ∷ "count the" ∷ "number of"
    ∷ "how many" ∷ []

abbrev pub countable_terms : List String
countable_terms =
    "car" ∷ "cars" ∷ "vehicle" ∷ "vehicles" ∷ "person" ∷ "people" ∷ "pedestrian" ∷ "pedestrians"
    ∷ "motorcycle" ∷ "motorcycles" ∷ "truck" ∷ "trucks" ∷ "bus" ∷ "buses" ∷ []

abbrev pub tracking_terms : List String
tracking_terms = "track" ∷ "trajectory" ∷ "path" ∷ "follow" ∷ []

-- `any(term in p for term in terms)`
abbrev pub mentions : List String → String → Bool
mentions terms p = any (λ t. occurs_in t p) terms

unfoldable pub requests_exact_count : String → Bool
unfolding any occurs_in has_number lower
requests_exact_count prompt =
    let p = lower prompt in
    let marker = mentions count_markers p in
    let countable = mentions countable_terms p in
    (marker && countable) || (marker && has_number p && countable)

unfoldable pub requests_tracking : String → Bool
unfolding any occurs_in lower
requests_tracking prompt = mentions tracking_terms (lower prompt)
