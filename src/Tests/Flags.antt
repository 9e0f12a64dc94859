-- ===== src/Tests/Flags.antt =====
-- A reader of command lines, and that it reads flags as `clap` does.
use Prim.Native.Char.{Char, char, code}
use Prim.Native.String.{◌++◌}
use Prim.Native.String.append
use text.Mathlib.TextEquality.{Char-path}
use aragon_zk_governance.Common.{
  String, ◌≡◌, ◌≢◌, refl, sym, ap, ◌∙◌, Option, none, some, List, [], ◌∷◌, map, Bool, true, false,
  ◌&&◌, not, ◌==◌, ==_iff, str_eq, eq_iff, if◌then◌else◌, Bool-cases, inl, inr, arith,
}
use aragon_zk_governance.Common.Dict.{Dict, lookup}
use aragon_zk_governance.Server.{flag}
use aragon_zk_governance.Server.Publisher.{
  IsClap, publisher_flags, contains, is_given, is_command_line,
}

-- What stands after a prefix.
abbrev strip : String → String → Option String
strip String.[] s = some s
strip (String.◌∷◌ c p) String.[] = none
strip (String.◌∷◌ c p) (String.◌∷◌ d s) = if code c == code d then strip p s else none

-- What stands after the name and a sign of equality.
abbrev after_name : String → String → Option String
after_name name s = elim (strip name s) [ none ↦ none | some r ↦ strip "=" r ]

abbrev value_in : String → String → Option String
value_in name arg = elim (strip "--" arg) [ none ↦ none | some r ↦ after_name name r ]

abbrev pub value_of : List String → String → Option String
value_of [] name = none
value_of (arg ∷ args) name = elim (value_in name arg) [
  | none ↦ value_of args name
  | some value ↦ some value
]

strip-append : (p v : String) → strip p (p ++ v) ≡ some v
strip-append String.[] v = rw (append.nil v) refl
strip-append (String.◌∷◌ c p) v =
    rw (append.cons c p v, (==_iff (code c) (code c)).1 refl) (strip-append p v)

abbrev is_name : String → Bool
is_name String.[] = true
is_name (String.◌∷◌ c s) = not (code c == 61) && is_name s

after_name-other :
    (name other v : String)
    → name ≢ other
    → is_name name ≡ true
    → is_name other ≡ true
    → after_name name (other ++ ("=" ++ v)) ≡ none
after_name-other String.[] String.[] v ne hn ho = absurd (ne refl)
after_name-other String.[] (String.◌∷◌ d o) v ne hn ho =
    rw (append.cons d o ("=" ++ v)) (ground (arith, ho, ==_iff 61 (code d)))
after_name-other (String.◌∷◌ c n) String.[] v ne hn ho =
    let sign : Char = char 61 tt in
    let value : ("" ++ ("=" ++ v)) ≡ String.◌∷◌ sign v =
      append.nil ("=" ++ v)
      ∙ append.cons sign "" v
      ∙ ap (λ (t : String). String.◌∷◌ sign t) (append.nil v) in
    rw value (ground (arith, hn))
after_name-other (String.◌∷◌ c n) (String.◌∷◌ d o) v ne hn ho =
    rw (append.cons d o ("=" ++ v)) (elim (Bool-cases (code c == code d)) [
      | inl same ↦
          let one = Char-path c d ((==_iff (code c) (code d)).0 same) in
          rw (after_name, same)
            (after_name-other n o v
              (λ e.
                ne (ap (λ (t : String). String.◌∷◌ c t) e ∙ ap (λ (x : Char). String.◌∷◌ x o) one))
              (ground (arith, hn)) (ground (arith, ho)))
      | inr other ↦ rw (after_name, other) refl
    ])

value_in-flag : (name value : String) → value_in name (flag (name, value)) ≡ some value
value_in-flag name value = rw (
  value_in,
  after_name,
  strip-append "--" (name ++ ("=" ++ value)),
  strip-append name ("=" ++ value),
  strip-append "=" value,
)

value_in-other :
    (name other value : String)
    → name ≢ other
    → is_name name ≡ true
    → is_name other ≡ true
    → value_in name (flag (other, value)) ≡ none
value_in-other name other value ne hn ho =
    rw (value_in, strip-append "--" (other ++ ("=" ++ value)))
      (after_name-other name other value ne hn ho)

both_true : (a b : Bool) → a && b ≡ true → (a ≡ true) × (b ≡ true)
both_true true b h = (refl, h)
both_true false b h = cc

abbrev all_names : List String → Bool
all_names [] = true
all_names (name ∷ names) = is_name name && all_names names

contains-is_name :
    (name : String) (names : List String)
    → all_names names ≡ true
    → contains name names ≡ true
    → is_name name ≡ true
contains-is_name name [] h c = cc
contains-is_name name (other ∷ names) h c = elim (Bool-cases (str_eq name other)) [
  | inl same ↦ rw ((eq_iff name other).0 same) (ground (arith, h))
  | inr apart ↦ contains-is_name name names (ground (arith, h)) (ground (arith, apart, c))
]

first_contained :
    (name v : String) (d : Dict String)
    → is_command_line ((name, v) ∷ d) ≡ true
    → (is_name name ≡ true) × (is_command_line d ≡ true)
first_contained name v d line =
    let (known, rest) =
      both_true (contains name publisher_flags) (not (is_given name d) && is_command_line d) line in
    (
      contains-is_name name publisher_flags refl known,
      (both_true (not (is_given name d)) (is_command_line d) rest).1,
    )

lookup-is_name :
    (d : Dict String) (name : String) {value : String}
    → is_command_line d ≡ true
    → lookup name d ≡ some value
    → is_name name ≡ true
unfolding lookup
lookup-is_name [] name line h = cc
lookup-is_name ((other, v) ∷ d) name line h = elim (Bool-cases (str_eq other name)) [
  | inl same ↦ rw (← (eq_iff other name).0 same) (first_contained other v d line).0
  | inr apart ↦ lookup-is_name d name (first_contained other v d line).1 (rw apart at h)
]

value_of-lookup :
    (d : Dict String) (name value : String)
    → is_command_line d ≡ true
    → lookup name d ≡ some value
    → value_of (map flag d) name ≡ some value
unfolding lookup
value_of-lookup [] name value line h = cc
value_of-lookup ((other, v) ∷ d) name value line h = elim (Bool-cases (str_eq other name)) [
  | inl same ↦
      let v_value : some v ≡ some value = rw same at h in
      rw ((eq_iff other name).0 same, value_of, value_in-flag name v) v_value
  | inr apart ↦
      let later = rw apart at h in
      let (named, rest) = first_contained other v d line in
      let skipped =
        value_in-other name other v (λ e. cc ((eq_iff other name).1 (sym e)))
          (lookup-is_name d name rest later) named in
      rw (value_of, skipped) (value_of-lookup d name value rest later)
]

value_of-absent :
    (d : Dict String) (name : String)
    → is_command_line d ≡ true
    → contains name publisher_flags ≡ true
    → lookup name d ≡ none
    → value_of (map flag d) name ≡ none
unfolding lookup
value_of-absent [] name line flagged h = refl
value_of-absent ((other, v) ∷ d) name line flagged h = elim (Bool-cases (str_eq other name)) [
  | inl same ↦ let found = rw same at h in cc found
  | inr apart ↦
      let later = rw apart at h in
      let (named, rest) = first_contained other v d line in
      let skipped =
        value_in-other name other v (λ e. cc ((eq_iff other name).1 (sym e)))
          (contains-is_name name publisher_flags refl flagged) named in
      rw (value_of, skipped) (value_of-absent d name rest flagged later)
]

pub value_of-IsClap : IsClap value_of
value_of-IsClap = record { reads = value_of-lookup; absent = value_of-absent }
