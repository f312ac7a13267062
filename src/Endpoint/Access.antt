-- ===== src/Endpoint/Access.antt =====
-- internal/sweep/sweep.go: theorems on who starts a sweep, and on the lock.
use titelheld.Prelude.{
  ℕ, suc, ◌≤◌, ◌≡◌, ◌≢◌, ◌↔◌, refl, sym, ap, Bool, true, false, not, Option, none, some, ◌⊎◌, inl,
  inr, [], ◌∷◌, ◌++◌, if◌then◌else◌, take, length, map, arith, take-append-drop, length-take,
  and_split,
}
use titelheld.Prelude.Text.{Text, codes, text_eq, trim_space, text_eq_iff}
use titelheld.Prelude.Action.{Result, ok, err}
use titelheld.Processor.{SweepResult}
use titelheld.Endpoint.{
  Payload, Deps, is_configured, Rejection, google_issuer, bearer_token, check_payload, check_token,
  nonempty, trimmed, text_or_empty, is_verified, authenticate, Handler, arrive, admit, finish,
  cut_prefix_fold, equal_fold, ascii_lower,
}

-- a header with a token: a scheme, in any case, and a token with blanks around it
abbrev pub IsBearer : Text → Text → Type 0
IsBearer header token =
    (scheme : Text) × (rest : Text) × (header ≡ scheme ++ rest)
    × (length scheme ≡ 7)
    × (map ascii_lower scheme ≡ codes "bearer ")
    × (trim_space rest ≡ token)
    × (token ≢ [])

cut_prefix_fold_lem :
    (s prefix rest : Text)
    → cut_prefix_fold s prefix ≡ some rest
    → (s ≡ take (length prefix) s ++ rest)
      × (length (take (length prefix) s) ≡ length prefix)
      × (map ascii_lower (take (length prefix) s) ≡ map ascii_lower prefix)
unfolding cut_prefix_fold equal_fold
cut_prefix_fold_lem s prefix rest e = ground (
  arith,
  sym (take-append-drop (length prefix) s),
  length-take (length prefix) s,
  text_eq_iff (map ascii_lower (take (length prefix) s)) (map ascii_lower prefix),
)

nonempty_lem : (t token : Text) → nonempty t ≡ inl token → (t ≡ token) × (token ≢ [])
nonempty_lem [] token e = absurd (cc)
nonempty_lem (c ∷ cs) token e = (cc, λ z. absurd (cc))

bearer_token_lem : (header token : Text) → bearer_token header ≡ inl token → IsBearer header token
unfolding bearer_token
bearer_token_lem [] token e = absurd (cc)
bearer_token_lem (c ∷ cs) token e = by_rest (cut_prefix_fold (c ∷ cs) (codes "Bearer ")) refl e
  where
    by_rest :
        (o : Option Text)
        → cut_prefix_fold (c ∷ cs) (codes "Bearer ") ≡ o
        → trimmed o ≡ inl token
        → IsBearer (c ∷ cs) token
    by_rest none k e = absurd (cc)
    by_rest (some rest) k e =
        let cut = cut_prefix_fold_lem (c ∷ cs) (codes "Bearer ") rest k in
        let t = nonempty_lem (trim_space rest) token e in
        (take 7 (c ∷ cs), rest, cut.0, cut.1, cut.2, t.0, t.1)

email_some :
    (o : Option Text) (t : Text)
    → text_eq t [] ≡ false
    → text_eq (text_or_empty o) t ≡ true
    → o ≡ some t
unfolding text_eq
email_some none [] n e = absurd (cc)
email_some none (c ∷ cs) n e = absurd (cc)
email_some (some u) t n e = ap some ((text_eq_iff u t).0 e)

verified_some : (o : Option Bool) → is_verified o ≡ true → o ≡ some true
verified_some none e = absurd (cc)
verified_some (some b) e = ap some e

checks :
    (a b v : Bool)
    → (if not a
        then some Rejection.wrong_issuer
        else if not b
        then some Rejection.wrong_email
        else if not v
        then some Rejection.not_verified
        else none)
      ≡ none
    → (a ≡ true) × (b ≡ true) × (v ≡ true)
checks a b v e = ground arith

check_payload_lem :
    (d : Deps) (o : Option Payload)
    → is_configured d ≡ true
    → check_payload d o ≡ none
    → (p : Payload) × (o ≡ some p)
      × (p.issuer ≡ google_issuer)
      × (p.email ≡ some d.service_account)
      × (p.email_verified ≡ some true)
unfolding is_configured
check_payload_lem d none c e = absurd (cc)
check_payload_lem d (some p) c e =
    let k =
      checks (text_eq p.issuer google_issuer) (text_eq (text_or_empty p.email) d.service_account)
        (is_verified p.email_verified) e in
    let set = and_split (not (text_eq d.audience [])) (not (text_eq d.service_account [])) c in
    (
      p,
      refl,
      (text_eq_iff p.issuer google_issuer).0 k.0,
      email_some p.email d.service_account (ground (arith, set.1)) k.1,
      verified_some p.email_verified k.2,
    )

-- A caller that is let through has presented a Bearer token that validates for the configured
-- audience, was issued by Google's issuer for schedulers, and names the configured service account with a
-- verified address.
pub authenticate_lem :
    (d : Deps) (header : Text)
    → is_configured d ≡ true
    → authenticate d header ≡ none
    → (token : Text) × (p : Payload) × IsBearer header token
      × (d.validate token d.audience ≡ some p)
      × (p.issuer ≡ google_issuer)
      × (p.email ≡ some d.service_account)
      × (p.email_verified ≡ some true)
unfolding authenticate
authenticate_lem d header c a = by_token (bearer_token header) refl a
  where
    by_token :
        (t : Text ⊎ Rejection)
        → bearer_token header ≡ t
        → check_token d t ≡ none
        → (token : Text) × (p : Payload) × IsBearer header token
          × (d.validate token d.audience ≡ some p)
          × (p.issuer ≡ google_issuer)
          × (p.email ≡ some d.service_account)
          × (p.email_verified ≡ some true)
    by_token (inr r) k e = absurd (cc)
    by_token (inl token) k e =
        let p = check_payload_lem d (d.validate token d.audience) c e in
        (token, p.0, bearer_token_lem header token k, p.1, p.2, p.3, p.4)

-- A request arrives, or a sweep that runs ends.
pub data Move (d : Deps) : Handler → Handler → Type 0 where
  request : (header : Text) (h : Handler) → Move d h (arrive d header h).1
  ended :
      (r : Result SweepResult) (h : Handler) (n : ℕ) → h.sweeping ≡ suc n → Move d h (finish r h).1

pub data Reach (d : Deps) : Handler → Type 0 where
  start : Reach d (record { running = false; sweeping = 0 })
  next : (g h : Handler) → Reach d g → Move d g h → Reach d h

abbrev IsLocked : Handler → Type 0
IsLocked h = h.sweeping ≡ (if h.running then 1 else 0)

Move-IsLocked : (d : Deps) (g h : Handler) → Move d g h → IsLocked g → IsLocked h
unfolding arrive finish
Move-IsLocked d g _ (request header _) l = by_answer (authenticate d header)
  where
    by_answer : (o : Option Rejection) → IsLocked (admit o g).1
    by_answer (some r) = l
    by_answer none = ground arith
Move-IsLocked d g _ (ended (ok r) _ n e) l = ground arith
Move-IsLocked d g _ (ended (err x) _ n e) l = ground arith

-- However requests arrive and sweeps end, at most one sweep runs, and one runs exactly while the lock
-- is held.
pub reach-sweeping :
    (d : Deps) (h : Handler)
    → Reach d h
    → (h.sweeping ≤ 1) × ((h.sweeping ≡ 1) ↔ (h.running ≡ true))
reach-sweeping d h r = let l = Reach-IsLocked h r in (ground arith, ground arith)
  where
    Reach-IsLocked : (h : Handler) → Reach d h → IsLocked h
    Reach-IsLocked _ start = refl
    Reach-IsLocked _ (next g h r m) = Move-IsLocked d g h m (Reach-IsLocked g r)
