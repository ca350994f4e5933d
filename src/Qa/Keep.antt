-- ===== src/Qa/Keep.antt =====
-- Finding and replacing sessions.
use hive_manager.Base.{
  ◌≡◌, refl, sym, true, false, not, Option, none, some, List, [], ◌∷◌, String, str_eq, any, select,
  update_where, All, Bool-cases, inl, inr, arith,
}
use hive_manager.Session.{SessionState, Session}
use hive_manager.Qa.{Controller, find_session}

pub find-id :
    (id : String) (ss : List Session) (s : Session)
    → find_session id ss ≡ some s
    → str_eq s.id id ≡ true
find-id id [] s h = cc
find-id id (x ∷ ss) s h = ground (arith, find-id id ss s)

pub find-update :
    (id : String) (f : Session → Session) (ss : List Session) (s : Session)
    → find_session id ss ≡ some s
    → str_eq (f s).id id ≡ true
    → find_session id (update_where (λ x. str_eq x.id id) f ss) ≡ some (f s)
find-update id f [] s h k = cc
find-update id f (x ∷ ss) s h k = elim (Bool-cases (str_eq x.id id)) [
  | inl hit ↦ ground arith
  | inr miss ↦ ground (arith, find-update id f ss s)
]

-- No other session has the id.
abbrev pub IsOnly : String → Session → Controller → Type 0
IsOnly id s c = All (λ x. str_eq x.id id ≡ true → x ≡ s) c.sessions

pub put_back :
    (id : String) (s u : Session) (ss : List Session)
    → All (λ x. str_eq x.id id ≡ true → x ≡ s) ss
    → str_eq u.id id ≡ true
    → update_where (λ x. str_eq x.id id) (λ x. s) (update_where (λ x. str_eq x.id id) (λ x. u) ss)
      ≡ ss
put_back id s u [] k e = refl
put_back id s u (x ∷ ss) (k, ks) e = elim (Bool-cases (str_eq x.id id)) [
  | inl hit ↦ rw (hit, e, put_back id s u ss ks e, sym (k hit)) refl
  | inr miss ↦ rw (miss, miss, put_back id s u ss ks e) refl
]

-- The state of a session.
abbrev pub state_of : Option Session → Option SessionState
state_of none = none
state_of (some s) = some s.state

pub timer_gone :
    (id : String) (ts : List String)
    → any (λ t. str_eq t id) (select (λ t. not (str_eq t id)) ts) ≡ false
timer_gone id [] = refl
timer_gone id (t ∷ ts) = ground (arith, timer_gone id ts)
