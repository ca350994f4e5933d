-- ===== src/Knowledge/Cut.antt =====
-- src-tauri/src/http/handlers/knowledge.rs: a text cut to a number of bytes, between characters.
use mathlib.Core.List.{append-nil, append_assoc}
use hive_manager.Base.{
  false-true, leb→le, subst, ℕ, zero, suc, ◌+◌, ◌-◌, ◌==◌, leb, ◌≤◌, ◌<◌, ◌≡◌, refl, sym, ap, ◌∙◌,
  Bool, true, false, ◌||◌, ◌&&◌, [], ◌∷◌, ◌++◌, Text, if_both, if◌then◌else◌, Bool-cases, inl, inr,
  arith,
}
use hive_manager.Knowledge.{char_bytes, byte_len}

-- `is_char_boundary`: the start, or the end of one of the characters.
abbrev pub is_char_boundary : ℕ → Text → Bool
is_char_boundary n [] = n == 0
is_char_boundary n (c ∷ cs) =
    let later = is_char_boundary (n - char_bytes c) cs in n == 0 || leb (char_bytes c) n && later

-- The loop that goes down to a boundary; it stops at 0 at the latest.
unfoldable pub floor_boundary : ℕ → Text → ℕ
floor_boundary zero t = zero
floor_boundary (suc n) t =
    let lower = floor_boundary n t in if is_char_boundary (suc n) t then suc n else lower

-- `String::truncate` at a boundary.
abbrev pub truncate : ℕ → Text → Text
truncate n [] = []
truncate n (c ∷ cs) =
    let rest = truncate (n - char_bytes c) cs in if leb (char_bytes c) n then c ∷ rest else []

unfoldable pub truncate_utf8 : Text → ℕ → Text × Bool
unfolding floor_boundary
truncate_utf8 value max_bytes =
    if leb (byte_len value) max_bytes
    then (value, false)
    else (truncate (floor_boundary max_bytes value) value, true)

zero-boundary : (t : Text) → is_char_boundary 0 t ≡ true
zero-boundary [] = refl
zero-boundary (c ∷ cs) = refl

floor-le : (n : ℕ) (t : Text) → floor_boundary n t ≤ n
unfolding floor_boundary
floor-le zero t = omega arith
floor-le (suc n) t =
    if_both (λ k. k ≤ suc n) (is_char_boundary (suc n) t) (λ _. omega arith)
      (λ _. omega (arith, floor-le n t))

floor-boundary : (n : ℕ) (t : Text) → is_char_boundary (floor_boundary n t) t ≡ true
unfolding floor_boundary
floor-boundary zero t = zero-boundary t
floor-boundary (suc n) t =
    if_both (λ k. is_char_boundary k t ≡ true) (is_char_boundary (suc n) t) (λ e. e)
      (λ _. floor-boundary n t)

floor-greatest : (n k : ℕ) (t : Text) → k ≤ n → is_char_boundary k t ≡ true → k ≤ floor_boundary n t
unfolding floor_boundary
floor-greatest zero k t h b = h
floor-greatest (suc n) k t h b =
    if_both (λ m. k ≤ m) (is_char_boundary (suc n) t) (λ _. h)
      (λ e. floor-greatest n k t (ground (arith, h, b, e)) b)

char_bytes-positive : (c : ℕ) → 1 ≤ char_bytes c
char_bytes-positive c = ground arith

-- What `truncate` leaves out.
rest_of : ℕ → Text → Text
rest_of n [] = []
rest_of n (c ∷ cs) =
    let rest = rest_of (n - char_bytes c) cs in if leb (char_bytes c) n then rest else c ∷ cs

truncate-rest : (n : ℕ) (t : Text) → t ≡ truncate n t ++ rest_of n t
unfolding rest_of
truncate-rest n [] = refl
truncate-rest n (c ∷ cs) = elim (Bool-cases (leb (char_bytes c) n)) [
  | inl e ↦ rw e (ap (λ r. c ∷ r) (truncate-rest (n - char_bytes c) cs))
  | inr e ↦ rw e refl
]

over :
    (b n : ℕ) (later : Bool)
    → 1 ≤ b
    → leb b n ≡ true
    → n == 0 || leb b n && later ≡ true
    → (later ≡ true) × (b + (n - b) ≡ n)
over b n later h k q = (ground (arith, h, k, q), ground (arith, k))

under : (b n : ℕ) (later : Bool) → leb b n ≡ false → n == 0 || leb b n && later ≡ true → 0 ≡ n
under b n later k q = ground (arith, k, q)

onward : (b m : ℕ) (later : Bool) → later ≡ true → (b + m) == 0 || leb b (b + m) && later ≡ true
onward b m later h = ground (arith, h)

truncate-exact : (n : ℕ) (t : Text) → is_char_boundary n t ≡ true → byte_len (truncate n t) ≡ n
truncate-exact n [] b = ground (arith, b)
truncate-exact n (c ∷ cs) b =
    if_both (λ r. byte_len r ≡ n) (leb (char_bytes c) n)
      (λ e.
        let (later, whole) = over (char_bytes c) n _ (char_bytes-positive c) e b in
        ap (λ m. char_bytes c + m) (truncate-exact (n - char_bytes c) cs later) ∙ whole)
      (λ e. under (char_bytes c) n _ e b)

back : (b m : ℕ) → b + m - b ≡ m
back b m = omega arith

byte_len-append : (r rest : Text) → byte_len (r ++ rest) ≡ byte_len r + byte_len rest
byte_len-append [] rest = omega arith
byte_len-append (c ∷ r) rest = omega (arith, byte_len-append r rest)

boundary-append : (r rest : Text) → is_char_boundary (byte_len r) (r ++ rest) ≡ true
boundary-append [] rest = zero-boundary rest
boundary-append (c ∷ r) rest = onward (char_bytes c) (byte_len r) _ (
    ap (λ m. is_char_boundary m (r ++ rest)) (back (char_bytes c) (byte_len r))
    ∙ boundary-append r rest)

-- What the result of a cut is: it fits, it begins the text, and a text that is cut has a next
-- character that does not fit.
pub record CutTo (value : Text) (max_bytes : ℕ) (r : Text × Bool) : Type 0 where
  pub rest : Text
  pub fits : byte_len r.0 ≤ max_bytes
  pub whole : value ≡ r.0 ++ rest
  pub uncut : r.1 ≡ false → rest ≡ []
  pub most :
      r.1 ≡ true
      → (c : ℕ) × (cs : Text) × (rest ≡ c ∷ cs) × (max_bytes < byte_len r.0 + char_bytes c)

not_over : (m k v : ℕ) → v ≡ k + 0 → k ≤ m → m < v → ⊥
not_over m k v e h l = omega arith

not_past : (k b : ℕ) → 1 ≤ b → k + b ≤ k → ⊥
not_past k b h l = omega arith

module _ (value : Text) (max_bytes : ℕ) where
  abbrev kept : Text
  kept = truncate (floor_boundary max_bytes value) value

  kept-len : byte_len kept ≡ floor_boundary max_bytes value
  kept-len = truncate-exact _ value (floor-boundary max_bytes value)

  cut-fits : byte_len kept ≤ max_bytes
  cut-fits = omega (arith, kept-len, floor-le max_bytes value)

  -- The end of the next character is a boundary too.
  next-boundary :
      (c : ℕ) (cs : Text)
      → value ≡ kept ++ c ∷ cs
      → is_char_boundary (byte_len kept + char_bytes c) value ≡ true
  next-boundary c cs whole =
      ap (is_char_boundary (byte_len kept + char_bytes c))
        (whole ∙ sym (append_assoc kept (c ∷ []) cs))
      ∙ ap (λ n. is_char_boundary n ((kept ++ c ∷ []) ++ cs))
          (omega (arith, byte_len-append kept (c ∷ [])))
      ∙ boundary-append (kept ++ c ∷ []) cs

  next :
      (rest : Text)
      → value ≡ kept ++ rest
      → max_bytes < byte_len value
      → (c : ℕ) × (cs : Text) × (rest ≡ c ∷ cs) × (max_bytes < byte_len kept + char_bytes c)
  next [] whole long =
      elim (not_over max_bytes (byte_len kept) (byte_len value)
        (ap byte_len whole ∙ byte_len-append kept [])
        (omega (arith, kept-len, floor-le max_bytes value)) long) [ ]
  next (c ∷ cs) whole long = elim (Bool-cases (leb (byte_len kept + char_bytes c) max_bytes)) [
    | inr e ↦ (c, cs, refl, ground (arith, e))
    | inl e ↦
        elim (not_past (byte_len kept) (char_bytes c) (char_bytes-positive c) (
          subst (λ n. byte_len kept + char_bytes c ≤ n) (sym kept-len)
            (floor-greatest max_bytes (byte_len kept + char_bytes c) value (leb→le _ _ e)
              (next-boundary c cs whole)))) [ ]
  ]

-- A cut text fits the bytes and begins the text it is cut from; a text that fits is not cut, and of
-- one that does not, as many whole characters are kept as fit: the next would not.
pub truncate_utf8-CutTo :
    (value : Text) (max_bytes : ℕ) → CutTo value max_bytes (truncate_utf8 value max_bytes)
unfolding truncate_utf8
truncate_utf8-CutTo value max_bytes =
    if_both (CutTo value max_bytes) (leb (byte_len value) max_bytes)
      (λ e. record {
        rest = [];
        fits = leb→le _ _ e;
        whole = sym (append-nil value);
        uncut = λ _. refl;
        most = λ h. elim (false-true h) [ ];
      })
      (λ e. record {
        rest = rest_of (floor_boundary max_bytes value) value;
        fits = cut-fits value max_bytes;
        whole = truncate-rest (floor_boundary max_bytes value) value;
        uncut = λ h. elim (false-true (sym h)) [ ];
        most = λ _.
            next value max_bytes (rest_of (floor_boundary max_bytes value) value)
              (truncate-rest (floor_boundary max_bytes value) value) (ground (arith, e));
      })
