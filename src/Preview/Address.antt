-- ===== src/Preview/Address.antt =====
-- src-tauri/src/preview/mod.rs: how an address that an operator types becomes a URL, and which URLs
-- the preview opens. The `url` crate is the parameter `Urls`. An error is named for its check.
pub mod Normal
pub mod Gate
use hive_manager.Base.{
  ends_with_text, first_passes, ℕ, ◌==◌, Bool, true, false, not, ◌&&◌, ◌||◌, Option, none, some,
  List, [], ◌∷◌, ◌++◌, ◌⊎◌, inl, inr, Text, codes, text_eq, all, is_nil, is_digit, is_whitespace,
  trim_by, trim_end, has, until, split_once, rsplit_once, strip_prefix, to_ascii_lowercase,
  is_ascii_alphanumeric, is_ascii_alphabetic, eq_ignore_ascii_case, map, if◌then◌else◌,
}

abbrev pub local_api_port : ℕ
local_api_port = 18800

abbrev pub main_dev_server_port : ℕ
main_dev_server_port = 1420

abbrev pub trim : Text → Text
trim t = trim_by is_whitespace t

-- `['/', '?', '#', '\\']`.
abbrev pub ends_authority : ℕ → Bool
ends_authority c = c == b'/' || c == b'?' || c == b'#' || c == 92

abbrev pub is_hostname_char : ℕ → Bool
is_hostname_char c = is_ascii_alphanumeric c || c == b'-' || c == b'.'

abbrev pub is_scheme_char : ℕ → Bool
is_scheme_char c = is_ascii_alphanumeric c || c == b'+' || c == b'-' || c == b'.'

unfoldable pub looks_like_hostname : Text → Bool
looks_like_hostname candidate =
    not (is_nil candidate)
    && all is_hostname_char candidate
    && (has (λ c. c == b'.') candidate || eq_ignore_ascii_case candidate (codes "localhost"))

-- What the scheme and the body at the first colon decide.
unfoldable pub scheme_at : Option (Text × Text) → Bool
unfolding looks_like_hostname
scheme_at none = false
scheme_at (some (scheme, body)) =
    let port = until ends_authority body in
    not (has ends_authority scheme)
    && first_passes is_ascii_alphabetic scheme
    && all is_scheme_char scheme
    && not (not (is_nil port) && all is_digit port && looks_like_hostname scheme)

unfoldable pub has_explicit_scheme : Text → Bool
unfolding scheme_at
has_explicit_scheme input = scheme_at (split_once (λ c. c == b':') input)

abbrev pub or_whole : Text → Option Text → Text
or_whole t none = t
or_whole t (some rest) = rest

abbrev pub after_at : Text → Option (Text × Text) → Text
after_at t none = t
after_at t (some (_, after)) = after

-- The last colon parts a port from its host when only digits follow it, none included.
abbrev pub without_port : Text → Option (Text × Text) → Text
without_port t none = t
without_port t (some (host, port)) = if all is_digit port then host else t

abbrev pub host_of_authority : Text → Option Text → Text
host_of_authority authority (some after_bracket) = until (λ c. c == b']') after_bracket
host_of_authority authority none = without_port authority (rsplit_once (λ c. c == b':') authority)

unfoldable pub schemeless_host : Text → Text
schemeless_host input =
    let rest = or_whole input (strip_prefix (codes "//") input) in
    let whole = until ends_authority rest in
    let authority = after_at whole (rsplit_once (λ c. c == b'@') whole) in
    host_of_authority authority (strip_prefix (codes "[") authority)

unfoldable pub is_localhostish_host : Text → Bool
is_localhostish_host host =
    let bare = trim_by (λ c. c == b'[' || c == b']') (trim_end (λ c. c == b'.') host) in
    let lower = map to_ascii_lowercase bare in
    text_eq lower (codes "localhost")
    || ends_with_text (codes ".localhost") lower
    || text_eq lower (codes "127.0.0.1")
    || text_eq lower (codes "::1")

-- A trimmed text with the scheme put before it.
unfoldable pub scheme_prepended : Text → Text
unfolding schemeless_host is_localhostish_host
scheme_prepended trimmed =
    let host = schemeless_host trimmed in
    if is_nil host
    then trimmed
    else if is_localhostish_host host
    then codes "http://" ++ trimmed
    else codes "https://" ++ trimmed

unfoldable pub normalize_trimmed : Text → Text
unfolding has_explicit_scheme scheme_prepended
normalize_trimmed trimmed =
    if is_nil trimmed || has_explicit_scheme trimmed then trimmed else scheme_prepended trimmed

unfoldable pub normalize_preview_input : Text → Text
unfolding normalize_trimmed
normalize_preview_input input = normalize_trimmed (trim input)

-- What the program uses of the `url` crate.
pub record Urls (U : Type 0) : Type 0 where
  pub parse : Text → Option U
  pub as_str : U → Text
  pub scheme : U → Text
  pub host_str : U → Option Text
  pub username : U → Text
  pub password : U → Option Text
  pub port_or_known_default : U → Option ℕ

pub data PreviewError : Type 0 where
  empty_input : PreviewError
  not_a_url : PreviewError
  scheme_refused : PreviewError
  host_missing : PreviewError
  credentials_refused : PreviewError
  local_api_refused : PreviewError
  trusted_origin_refused : PreviewError

abbrev pub is_some {ℓ} : {A : Type ℓ} → Option A → Bool
is_some none = false
is_some (some _) = true

-- `is_some_and(|p| p == n)`.
abbrev pub equals_some : ℕ → Option ℕ → Bool
equals_some n none = false
equals_some n (some p) = p == n

module _ {U : Type 0} (urls : Urls U) where
  abbrev pub is_port : ℕ → U → Bool
  is_port port url = equals_some port (urls.port_or_known_default url)

  abbrev pub web_scheme : U → Bool
  web_scheme url =
      text_eq (urls.scheme url) (codes "http") || text_eq (urls.scheme url) (codes "https")

  abbrev pub has_host : U → Bool
  has_host url = is_some (urls.host_str url)

  abbrev pub has_credentials : U → Bool
  has_credentials url = not (is_nil (urls.username url)) || is_some (urls.password url)

  -- Hosts are compared without their trailing dots.
  abbrev pub trusted_host : Option Text → Bool → Bool
  trusted_host none dev_port = false
  trusted_host (some whole) dev_port =
      let host = trim_end (λ c. c == b'.') whole in
      eq_ignore_ascii_case host (codes "tauri.localhost")
      || eq_ignore_ascii_case host (codes "localhost") && dev_port

  unfoldable pub is_trusted_main_window_origin : U → Bool
  is_trusted_main_window_origin url =
      trusted_host (urls.host_str url) (is_port main_dev_server_port url)

  abbrev pub check_url : ℕ → U → PreviewError ⊎ U
  unfolding is_trusted_main_window_origin
  check_url configured_api_port url =
      if not (web_scheme url)
      then inl scheme_refused
      else if not (has_host url)
      then inl host_missing
      else if has_credentials url
      then inl credentials_refused
      else if is_port local_api_port url || is_port configured_api_port url
      then inl local_api_refused
      else if is_trusted_main_window_origin url
      then inl trusted_origin_refused
      else inr url

  abbrev pub check_parsed : ℕ → Option U → PreviewError ⊎ U
  unfolding check_url
  check_parsed configured_api_port none = inl not_a_url
  check_parsed configured_api_port (some url) = check_url configured_api_port url

  unfoldable pub validate_preview_url : Text → ℕ → PreviewError ⊎ U
  unfolding check_parsed
  validate_preview_url input configured_api_port =
      let trimmed = trim input in
      if is_nil trimmed
      then inl empty_input
      else check_parsed configured_api_port (urls.parse trimmed)

  unfoldable pub validate_operator_preview_input : Text → ℕ → PreviewError ⊎ U
  unfolding validate_preview_url normalize_preview_input
  validate_operator_preview_input input configured_api_port =
      let trimmed = trim input in
      if is_nil trimmed
      then inl empty_input
      else validate_preview_url (normalize_preview_input trimmed) configured_api_port

  -- `is_ok`.
  abbrev pub is_ok : PreviewError ⊎ U → Bool
  is_ok (inl _) = false
  is_ok (inr _) = true

  unfoldable pub preview_navigation_allowed : U → ℕ → Bool
  unfolding validate_preview_url
  preview_navigation_allowed url configured_api_port =
      is_ok (validate_preview_url (urls.as_str url) configured_api_port)
