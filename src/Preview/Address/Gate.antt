-- ===== src/Preview/Address/Gate.antt =====
-- src-tauri/src/preview/mod.rs: which URLs the preview opens and navigates to.
use hive_manager.Base.{
  ℕ, ◌==◌, ==_iff, ◌≡◌, ◌≢◌, ◌↔◌, refl, sym, subst, ap, ◌∙◌, ◌⊎◌, inl, inr, Bool, true, false, not,
  ◌||◌, Option, none, some, [], ◌∷◌, Text, codes, text_eq, text_eq_iff, is_nil, Bool-cases, if_both,
  if◌then◌else◌, arith,
}
use hive_manager.Preview.Address.{
  is_ok, is_some, equals_some, trim, Urls, PreviewError, scheme_refused, host_missing,
  credentials_refused, local_api_refused, trusted_origin_refused, is_port, web_scheme, has_host,
  has_credentials, check_url, check_parsed, local_api_port, is_trusted_main_window_origin,
  validate_preview_url, normalize_preview_input, validate_operator_preview_input,
  preview_navigation_allowed,
}

-- What a URL that the preview opens has to be.
pub record Safe {U : Type 0} (urls : Urls U) (configured_api_port : ℕ) (url : U) : Type 0 where
  web : (urls.scheme url ≡ codes "http") ⊎ (urls.scheme url ≡ codes "https")
  host : urls.host_str url ≢ none
  no_username : urls.username url ≡ []
  no_password : urls.password url ≡ none
  not_local : urls.port_or_known_default url ≢ some local_api_port
  not_configured : urls.port_or_known_default url ≢ some configured_api_port
  not_trusted : is_trusted_main_window_origin urls url ≡ false

-- The checks in order, by their outcomes.
checks : {U : Type 0} → Bool → Bool → Bool → Bool → Bool → U → PreviewError ⊎ U
checks false host credentials reserved trusted url = inl scheme_refused
checks true false credentials reserved trusted url = inl host_missing
checks true true true reserved trusted url = inl credentials_refused
checks true true false true trusted url = inl local_api_refused
checks true true false false true url = inl trusted_origin_refused
checks true true false false false url = inr url

checks-if :
    {U : Type 0} (w h c p t : Bool) (url : U)
    → (if not w
        then inl scheme_refused
        else if not h
        then inl host_missing
        else if c
        then inl credentials_refused
        else if p
        then inl local_api_refused
        else if t
        then inl trusted_origin_refused
        else inr url)
      ≡ checks w h c p t url
unfolding checks
checks-if false h c p t url = refl
checks-if true false c p t url = refl
checks-if true true true p t url = refl
checks-if true true false true t url = refl
checks-if true true false false true url = refl
checks-if true true false false false url = refl

Passed : Bool → Bool → Bool → Bool → Bool → Type 0
Passed w h c p t = (w ≡ true) × (h ≡ true) × (c ≡ false) × (p ≡ false) × (t ≡ false)

checks-Passed :
    {U : Type 0} (w h c p t : Bool) (url u : U)
    → checks w h c p t url ≡ inr u
    → Passed w h c p t × (url ≡ u)
unfolding checks Passed
checks-Passed false h c p t url u e = cc
checks-Passed true false c p t url u e = cc
checks-Passed true true true p t url u e = cc
checks-Passed true true false true t url u e = cc
checks-Passed true true false false true url u e = cc
checks-Passed true true false false false url u e = ((refl, refl, refl, refl, refl), cc)

Passed-checks :
    {U : Type 0} (w h c p t : Bool) (url : U) → Passed w h c p t → checks w h c p t url ≡ inr url
unfolding checks Passed
Passed-checks false h c p t url (e, _, _, _, _) = cc
Passed-checks true false c p t url (_, e, _, _, _) = cc
Passed-checks true true true p t url (_, _, e, _, _) = cc
Passed-checks true true false true t url (_, _, _, e, _) = cc
Passed-checks true true false false true url (_, _, _, _, e) = cc
Passed-checks true true false false false url _ = refl

is_nil→ : (t : Text) → not (is_nil t) ≡ false → t ≡ []
is_nil→ [] h = refl
is_nil→ (c ∷ t) h = cc

or_false : (a b : Bool) → a || b ≡ false → (a ≡ false) × (b ≡ false)
or_false a b h = (ground (arith, h), ground (arith, h))

equals_some-false : (n : ℕ) (o : Option ℕ) → equals_some n o ≡ false → o ≢ some n
equals_some-false n none h k = cc
equals_some-false n (some p) h k = ground (arith, h, k)

not-equals_some : (n : ℕ) (o : Option ℕ) → o ≢ some n → equals_some n o ≡ false
not-equals_some n none h = refl
not-equals_some n (some p) h = elim (Bool-cases (p == n)) [
  | inr e ↦ e
  | inl e ↦ elim (h (ap some ((==_iff p n).0 e))) [ ]
]

is_some→ : {A : Type 0} (o : Option A) → is_some o ≡ true → o ≢ none
is_some→ none h k = cc
is_some→ (some a) h k = cc

→is_some : {A : Type 0} (o : Option A) → o ≢ none → is_some o ≡ true
→is_some none h = elim (h refl) [ ]
→is_some (some a) h = refl

not_some : {A : Type 0} (o : Option A) → is_some o ≡ false → o ≡ none
not_some none h = refl
not_some (some a) h = cc

either_text : (t a b : Text) → text_eq t a || text_eq t b ≡ true → (t ≡ a) ⊎ (t ≡ b)
either_text t a b h = elim (Bool-cases (text_eq t a)) [
  | inl e ↦ inl ((text_eq_iff t a).0 e)
  | inr e ↦ inr ((text_eq_iff t b).0 (ground (arith, e, h)))
]

→either_text : (t a b : Text) → (t ≡ a) ⊎ (t ≡ b) → text_eq t a || text_eq t b ≡ true
→either_text t a b (inl e) = ground (arith, (text_eq_iff t a).1 e)
→either_text t a b (inr e) = ground (arith, (text_eq_iff t b).1 e)

module _ {U : Type 0} (urls : Urls U) (port : ℕ) (url : U) where
  AllPass : Type 0
  unfolding Passed
  AllPass =
      Passed (web_scheme urls url) (has_host urls url) (has_credentials urls url)
        (is_port urls local_api_port url || is_port urls port url)
        (is_trusted_main_window_origin urls url)

  Passed-Safe : AllPass → Safe urls port url
  unfolding Passed AllPass
  Passed-Safe (w, h, c, p, t) = record {
    web = either_text _ _ _ w;
    host = is_some→ _ h;
    no_username = is_nil→ _ (or_false _ _ c).0;
    no_password = not_some _ (or_false _ _ c).1;
    not_local = equals_some-false local_api_port _ (or_false _ _ p).0;
    not_configured = equals_some-false port _ (or_false _ _ p).1;
    not_trusted = t;
  }

  Safe-Passed : Safe urls port url → AllPass
  unfolding Passed AllPass
  Safe-Passed s = (
    →either_text _ _ _ s.web,
    →is_some _ s.host,
    rw (s.no_username, s.no_password) refl,
    rw (not-equals_some local_api_port _ s.not_local, not-equals_some port _ s.not_configured) refl,
    s.not_trusted,
  )

  check-Safe : (u : U) → check_url urls port url ≡ inr u → Safe urls port url × (url ≡ u)
  unfolding AllPass check_url
  check-Safe u h =
      let (passed, e) = checks-Passed _ _ _ _ _ url u (sym (checks-if _ _ _ _ _ url) ∙ h) in
      (Passed-Safe passed, e)

  Safe-check : Safe urls port url → check_url urls port url ≡ inr url
  unfolding AllPass check_url
  Safe-check s = checks-if _ _ _ _ _ url ∙ Passed-checks _ _ _ _ _ url (Safe-Passed s)

false-true : false ≢ true
false-true h = cc

inl-inr : {A B : Type 0} (a : A) (b : B) → inl a ≢ inr b
inl-inr a b h = cc

check_parsed-Safe :
    {U : Type 0} (urls : Urls U) (port : ℕ) (o : Option U) (u : U)
    → check_parsed urls port o ≡ inr u
    → (o ≡ some u) × Safe urls port u
unfolding check_parsed
check_parsed-Safe urls port none u h = elim (inl-inr _ _ h) [ ]
check_parsed-Safe urls port (some url) u h =
    let (safe, e) = check-Safe urls port url u h in (ap some e, subst (Safe urls port) e safe)

-- Validation accepts a text as a URL exactly when the text, trimmed, is not empty, parses as that
-- URL, and the URL is safe: `http` or `https`, with a host, without credentials, neither on the
-- reserved nor on the configured port of the program's own API, and not the main window's origin.
pub validate_preview_url_lem :
    {U : Type 0} (urls : Urls U) (input : Text) (port : ℕ) (url : U)
    → (validate_preview_url urls input port ≡ inr url)
      ↔ ((is_nil (trim input) ≡ false) × (urls.parse (trim input) ≡ some url) × Safe urls port url)
unfolding validate_preview_url
validate_preview_url_lem urls input port url = (
  if_both
      (λ r.
        r ≡ inr url
        → (is_nil (trim input) ≡ false) × (urls.parse (trim input) ≡ some url) × Safe urls port url)
      (is_nil (trim input)) (λ _ h. elim (inl-inr _ _ h) [ ])
      (λ n h.
        let (e, s) = check_parsed-Safe urls port (urls.parse (trim input)) url h in (n, e, s)),
  λ (n, e, s).
      if_both (λ r. r ≡ inr url) (is_nil (trim input)) (λ k. cc)
        (λ _. ap (check_parsed urls port) e ∙ Safe-check urls port url s),
)

some_injective : {A : Type 0} {a b : A} → some a ≡ some b → a ≡ b
some_injective h = cc

is_ok-inr :
    {U : Type 0} (urls : Urls U) (r : PreviewError ⊎ U)
    → is_ok urls r ≡ true
    → (u : U) × (r ≡ inr u)
is_ok-inr urls (inl e) h = elim (false-true h) [ ]
is_ok-inr urls (inr u) h = (u, refl)

-- A text that parses is not empty.
parsed-not_nil :
    {U : Type 0} (urls : Urls U) (t : Text) (url : U)
    → urls.parse t ≡ some url
    → urls.parse [] ≡ none
    → is_nil t ≡ false
parsed-not_nil urls [] url h k = cc
parsed-not_nil urls (c ∷ t) url h k = refl

-- The navigation gate lets a URL through exactly when it is safe, for a URL whose serialization
-- parses back to it and a parser that refuses the empty text.
pub preview_navigation_allowed_lem :
    {U : Type 0} (urls : Urls U) (url : U) (port : ℕ)
    → urls.parse (trim (urls.as_str url)) ≡ some url
    → urls.parse [] ≡ none
    → (preview_navigation_allowed urls url port ≡ true) ↔ Safe urls port url
unfolding preview_navigation_allowed
preview_navigation_allowed_lem urls url port reparses no_empty = (
  λ h.
      let (u, e) = is_ok-inr urls _ h in
      let (_, parsed, safe) = (validate_preview_url_lem urls (urls.as_str url) port u).0 e in
      subst (Safe urls port) (some_injective (sym parsed ∙ reparses)) safe,
  λ safe.
      let n = parsed-not_nil urls _ url reparses no_empty in
      ap (is_ok urls)
        ((validate_preview_url_lem urls (urls.as_str url) port url).1 (n, reparses, safe)),
)

-- What the operator may open is what the page may navigate to: a URL that validation of typed
-- input returns passes the navigation gate, for a URL whose serialization parses back to it and a
-- parser that refuses the empty text.
pub operator-navigates :
    {U : Type 0} (urls : Urls U) (input : Text) (url : U) (port : ℕ)
    → validate_operator_preview_input urls input port ≡ inr url
    → urls.parse (trim (urls.as_str url)) ≡ some url
    → urls.parse [] ≡ none
    → preview_navigation_allowed urls url port ≡ true
unfolding validate_operator_preview_input
operator-navigates urls input url port h reparses no_empty =
    let validated =
      if_both (λ r. r ≡ inr url → Safe urls port url) (is_nil (trim input))
        (λ _ k. elim (inl-inr _ _ k) [ ])
        (λ _ k.
          ((validate_preview_url_lem urls (normalize_preview_input (trim input)) port url).0
            k).2) in
    (preview_navigation_allowed_lem urls url port reparses no_empty).1 (validated h)
