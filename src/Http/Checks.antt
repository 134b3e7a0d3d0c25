-- ===== src/Http/Checks.antt =====
-- The early returns of a handler: a check lets a value pass, or ends the handler with a response.
use linka_plays_metric.Prelude.{
  String, ℕ, ◌≡◌, refl, ◌⊎◌, inl, inr, Bool, true, false, Bytes, Result, ok, err, ◌≤◌, length,
  arith,
}
use linka_plays_metric.Http.Messages.{
  Incoming, whole, broken, Response, BodyRead, read, too_large, invalid, read_body, write_error,
}

pub data Check (A : Type 0) : Type 0 where
  pass : A → Check A
  respond : Response → Check A

infixl 5 ◌>>=◌ ◌>>◌
abbrev pub ◌>>=◌ : {A B : Type 0} → Check A → (A → Check B) → Check B
pass a >>= rest = rest a
respond r >>= rest = respond r

abbrev pub ◌>>◌ : {B : Type 0} → Check (Unit {0}) → Check B → Check B
check >> rest = check >>= λ _. rest

-- `if !test { httpx.WriteError(…); return }`
abbrev pub check : Bool → ℕ → String → Check (Unit {0})
check true status code = pass tt
check false status code = respond (write_error status code)

-- `if err != nil { httpx.WriteError(…); return }`
abbrev pub check_ok : {A : Type 0} → Result A → ℕ → String → Check A
check_ok (ok a) status code = pass a
check_ok (err e) status code = respond (write_error status code)

-- `writeV2BodyError` of the writer and `writeBodyError` of the collector.
unfoldable pub check_body : BodyRead → Check Bytes
check_body (read bytes) = pass bytes
check_body too_large = respond (write_error 413 "body_too_large")
check_body invalid = respond (write_error 400 "invalid_body")

-- A handler: it ends before the call that changes the state, or makes the call.
abbrev pub finish : {S A : Type 0} → Check A → (A → S → Response × S) → S → Response × S
finish (pass a) call s = call a s
finish (respond r) call s = (r, s)

pub Check-cases :
    {A : Type 0} (x : Check A) → ((a : A) × (x ≡ pass a)) ⊎ ((r : Response) × (x ≡ respond r))
Check-cases (pass a) = inl (a, refl)
Check-cases (respond r) = inr (r, refl)

pub >>=-eq-pass :
    {A B : Type 0} (x : Check A) (rest : A → Check B) {b : B}
    → (x >>= rest) ≡ pass b
    → (a : A) × (x ≡ pass a) × (rest a ≡ pass b)
>>=-eq-pass (pass a) rest h = (a, refl, h)
>>=-eq-pass (respond r) rest h = cc

pub check-eq-pass :
    {B : Type 0} (test : Bool) (status : ℕ) (code : String) (rest : Check B) {b : B}
    → (check test status code >> rest) ≡ pass b
    → (test ≡ true) × (rest ≡ pass b)
check-eq-pass true status code rest h = (refl, h)
check-eq-pass false status code rest h = cc

pub check_ok-eq-pass :
    {A : Type 0} (r : Result A) (status : ℕ) (code : String) {a : A}
    → check_ok r status code ≡ pass a
    → r ≡ ok a
check_ok-eq-pass (ok a) status code h = cc
check_ok-eq-pass (err e) status code h = cc

pub check_body-eq-pass :
    (limit : ℕ) (body : Incoming) {bytes : Bytes}
    → check_body (read_body limit body) ≡ pass bytes
    → (body ≡ whole bytes) × (length bytes ≤ limit)
unfolding check_body read_body
check_body-eq-pass limit (whole bytes) h = ground arith
check_body-eq-pass limit (broken bytes) h = ground arith

-- Whatever a check answers is an error.
unfoldable pub Refuses : {A : Type 0} → Check A → Type 0
Refuses x = (r : Response) → x ≡ respond r → 400 ≤ r.status

pub >>=-Refuses :
    {A B : Type 0} (x : Check A) (rest : A → Check B)
    → Refuses x
    → ((a : A) → Refuses (rest a))
    → Refuses (x >>= rest)
unfolding Refuses
>>=-Refuses (pass a) rest h k = k a
>>=-Refuses (respond q) rest h k = λ r e. h r (cc e)

pub check-Refuses :
    (test : Bool) (status : ℕ) (code : String) → 400 ≤ status → Refuses (check test status code)
unfolding Refuses write_error
check-Refuses true status code h = λ r e. cc e
check-Refuses false status code h = λ r e. ground arith

pub check_ok-Refuses :
    {A : Type 0} (x : Result A) (status : ℕ) (code : String)
    → 400 ≤ status
    → Refuses (check_ok x status code)
unfolding Refuses write_error
check_ok-Refuses (ok a) status code h = λ r e. cc e
check_ok-Refuses (err f) status code h = λ r e. ground arith

pub check_body-Refuses : (x : BodyRead) → Refuses (check_body x)
unfolding Refuses check_body write_error
check_body-Refuses (read bytes) = λ r e. cc e
check_body-Refuses too_large = λ r e. ground arith
check_body-Refuses invalid = λ r e. ground arith

pub pass-Refuses : {A : Type 0} (a : A) → Refuses (pass a)
unfolding Refuses
pass-Refuses a = λ r e. cc e
