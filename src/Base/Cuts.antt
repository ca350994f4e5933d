-- ===== src/Base/Cuts.antt =====
-- How the program cuts texts: prefixes, separators, the first or the last character that passes a
-- test, numerals.
use Prim.Native.Nat.{ℕ, zero, suc, ◌+◌}
use mathlib.Core.Path.{◌≡◌, refl}
use mathlib.Core.Bool.{Bool, true, false, not, ◌&&◌, ◌||◌}
use mathlib.Core.Option.{Option, none, some}
use mathlib.Core.List.{List, [], ◌∷◌, ◌++◌, map}
use native.Mathlib.Omega.{arith}
use hive_manager.Base.Tests.{ltb, leb, ◌==◌, if◌then◌else◌}
use hive_manager.Base.Lists.{all, is_nil, length}
use hive_manager.Base.Scans.{Text, text_eq, trim_end}
use hive_manager.Base.Decimals.{value_from, is_digit}

-- `char::to_ascii_lowercase` and `char::is_ascii_alphanumeric`.
abbrev pub to_ascii_lowercase : ℕ → ℕ
to_ascii_lowercase c = if leb 65 c && leb c 90 then c + 32 else c

abbrev pub is_ascii_alphanumeric : ℕ → Bool
is_ascii_alphanumeric c = leb 48 c && leb c 57 || leb 65 c && leb c 90 || leb 97 c && leb c 122

abbrev pub is_ascii_alphabetic : ℕ → Bool
is_ascii_alphabetic c = leb 65 c && leb c 90 || leb 97 c && leb c 122

abbrev pub eq_ignore_ascii_case : Text → Text → Bool
eq_ignore_ascii_case a b = text_eq (map to_ascii_lowercase a) (map to_ascii_lowercase b)

-- `str::strip_prefix`, and `str::trim_start_matches`, which strips the prefix again and again: no
-- more often than the text is long.
abbrev pub strip_prefix : Text → Text → Option Text
strip_prefix [] t = some t
strip_prefix (p ∷ ps) [] = none
strip_prefix (p ∷ ps) (c ∷ cs) = if p == c then strip_prefix ps cs else none

abbrev pub strip_again : ℕ → Text → Text → Text
strip_again zero prefix t = t
strip_again (suc fuel) prefix t = elim (strip_prefix prefix t) [
  | none ↦ t
  | some rest ↦ strip_again fuel prefix rest
]

abbrev pub trim_start_matches : Text → Text → Text
trim_start_matches prefix t = strip_again (length t) prefix t

abbrev pub starts_with : Text → Text → Bool
starts_with prefix t = elim (strip_prefix prefix t) [ none ↦ false | some _ ↦ true ]

abbrev pub parse_digits : ℕ → Text → Option ℕ
parse_digits limit t =
    if not (is_nil t) && all is_digit t && ltb (value_from 0 t) limit
    then some (value_from 0 t)
    else none

abbrev pub onto_first : ℕ → List Text → List Text
onto_first c [] = (c ∷ []) ∷ []
onto_first c (part ∷ parts) = (c ∷ part) ∷ parts

-- `split`.
abbrev pub split_at : ℕ → Text → List Text
split_at sep [] = [] ∷ []
split_at sep (c ∷ cs) = if c == sep then [] ∷ split_at sep cs else onto_first c (split_at sep cs)

-- `contains` of a text.
abbrev pub contains : Text → Text → Bool
contains needle [] = is_nil needle
contains needle (c ∷ cs) = starts_with needle (c ∷ cs) || contains needle cs

abbrev pub ends_with_text : Text → Text → Bool
ends_with_text suffix [] = is_nil suffix
ends_with_text suffix (c ∷ cs) = text_eq suffix (c ∷ cs) || ends_with_text suffix cs

-- What stands after the last occurrence of a text.
abbrev pub or_later : Option Text → Option Text → Option Text
or_later none here = here
or_later (some t) here = some t

abbrev pub after_last_text : Text → Text → Option Text
after_last_text needle [] = strip_prefix needle []
after_last_text needle (c ∷ cs) =
    or_later (after_last_text needle cs) (strip_prefix needle (c ∷ cs))

-- `parse` of an unsigned number below a limit: an optional plus sign, then digits.
abbrev pub parse_below : ℕ → Text → Option ℕ
parse_below limit [] = none
parse_below limit (c ∷ cs) =
    if c == b'+' then parse_digits limit cs else parse_digits limit (c ∷ cs)

-- `contains` of a character.
abbrev pub has : (ℕ → Bool) → Text → Bool
has p [] = false
has p (c ∷ cs) = p c || has p cs

-- `&s[..s.find(p).unwrap_or(s.len())]`.
abbrev pub until : (ℕ → Bool) → Text → Text
until p [] = []
until p (c ∷ cs) = if p c then [] else c ∷ until p cs

abbrev pub onto_before : ℕ → Option (Text × Text) → Option (Text × Text)
onto_before c none = none
onto_before c (some (before, after)) = some (c ∷ before, after)

-- What stands before and after the first character that passes: `find`, or `split_once`.
abbrev pub split_once : (ℕ → Bool) → Text → Option (Text × Text)
split_once p [] = none
split_once p (c ∷ cs) = if p c then some ([], cs) else onto_before c (split_once p cs)

abbrev pub found_here : Option Text → Option (Text × Text) → Option (Text × Text)
found_here none later = later
found_here (some after) later = some ([], after)

abbrev pub find_text : Text → Text → Option (Text × Text)
find_text needle [] = if is_nil needle then some ([], []) else none
find_text needle (c ∷ cs) =
    found_here (strip_prefix needle (c ∷ cs)) (onto_before c (find_text needle cs))

-- What stands before and after the last one: `rfind`, or `rsplit_once`.
abbrev pub or_here : Bool → ℕ → Text → Option (Text × Text) → Option (Text × Text)
or_here here c cs (some (before, after)) = some (c ∷ before, after)
or_here true c cs none = some ([], cs)
or_here false c cs none = none

abbrev pub rsplit_once : (ℕ → Bool) → Text → Option (Text × Text)
rsplit_once p [] = none
rsplit_once p (c ∷ cs) = or_here (p c) c cs (rsplit_once p cs)

-- Whether a text's last character passes a test.
abbrev pub last_passes : (ℕ → Bool) → Text → Bool
last_passes p [] = false
last_passes p (c ∷ []) = p c
last_passes p (c ∷ d ∷ cs) = last_passes p (d ∷ cs)

abbrev pub lacks : ℕ → Text → Bool
lacks sep t = all (λ c. not (c == sep)) t

pub trim_end-append :
    (p : ℕ → Bool) (t : Text) (c : ℕ)
    → p c ≡ true
    → last_passes p t ≡ false
    → trim_end p (t ++ c ∷ []) ≡ t
trim_end-append p [] c h l = rw h refl
trim_end-append p (x ∷ []) c h l = rw (trim_end, h, l) refl
trim_end-append p (x ∷ y ∷ t) c h l = rw (trim_end-append p (y ∷ t) c h l) refl

pub strip_prefix-append : (prefix t : Text) → strip_prefix prefix (prefix ++ t) ≡ some t
strip_prefix-append [] t = refl
strip_prefix-append (p ∷ ps) t = ground (arith, strip_prefix-append ps t)

pub split_at-append :
    (sep : ℕ) (xs ys : Text)
    → lacks sep xs ≡ true
    → split_at sep (xs ++ sep ∷ ys) ≡ xs ∷ split_at sep ys
split_at-append sep [] ys h = ground arith
split_at-append sep (x ∷ xs) ys h = ground (arith, split_at-append sep xs ys)
