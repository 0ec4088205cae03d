-- ===== src/Streambuf/Iostream.antt =====
-- include/boost/cmt/asio/basic_socket_iostream.hpp: a std::iostream over the stream buffer of a
-- socket. Of the stream's state only failbit is kept.
use boost_cmt.Base.{
  ℕ, ◌≡◌, ◌≢◌, ◌↔◌, refl, sym, List, [], ◌∷◌, Option, none, some, Bool, true, false, if◌then◌else◌,
  arith, inl, inr, Bool-cases, ◌==◌, ◌⊎◌, zero, suc, ◌∙◌,
}
use boost_cmt.Error.{Result, ok, throws}
use boost_cmt.Streambuf.{Streambuf, connect, close, resolve_and_connect, try_endpoints, Reply}
use boost_cmt.Streambuf.Connection.{Service}

pub record Iostream : Type 0 where
  pub buffer : Streambuf
  pub failbit : Bool

-- setstate( failbit ) where a call of the buffer gives a null pointer.
abbrev pub after_call : Bool → Bool → Bool
after_call before is_open = if is_open then before else true

-- connect, at the code that the operation gives.
unfoldable pub connect_stream : Iostream → ℕ → Iostream
unfolding connect
connect_stream s ec =
    let (buffer, is_open) = connect s.buffer ec in
    record { buffer = buffer; failbit = after_call s.failbit is_open }

-- The constructor with the arguments of connect, at a new buffer.
unfoldable pub open_stream : Streambuf → ℕ → Iostream
unfolding connect_stream
open_stream buffer ec = connect_stream (record { buffer = buffer; failbit = false }) ec

-- The same, at what resolve_and_connect ends with: what it throws leaves the constructor.
unfoldable pub open_resolved : Streambuf → Result ℕ → Result Iostream
open_resolved buffer (ok ec) = ok (open_stream buffer ec)
open_resolved buffer (throws e) = throws e

module _ (service : Service) where
  -- close, at the code of the socket's close
  abbrev pub closed_stream :
      Iostream → Option (Reply service.Conn Bool) → Option (Iostream × service.Conn)
  closed_stream s none = none
  closed_stream s (some r) =
      some (record { buffer = r.after; failbit = after_call s.failbit r.value }, r.conn)

  unfoldable pub close_stream :
      Iostream → service.Conn → List Bool → ℕ → Option (Iostream × service.Conn)
  unfolding close
  close_stream s c stored ec = closed_stream s (close service s.buffer c stored ec)

stops : (codes : List (ℕ × ℕ)) → try_endpoints 0 codes ≡ ok 0
unfolding try_endpoints
stops [] = refl
stops ((closing, c) ∷ codes) = refl

-- An endpoint can be connected to, and no close before it, or before one ahead of it, fails.
abbrev pub Reached : List (ℕ × ℕ) → Type 0
Reached [] = ⊥
Reached ((closing, c) ∷ codes) = (closing ≡ 0) × ((c ≡ 0) ⊎ Reached codes)

endpoint-Reached :
    (ec : ℕ) (codes : List (ℕ × ℕ)) → ec ≢ 0 → (try_endpoints ec codes ≡ ok 0) ↔ Reached codes
unfolding try_endpoints
endpoint-Reached ec [] n = (λ e. absurd (n (ground arith)), λ m. absurd m)
endpoint-Reached ec ((closing, c) ∷ codes) n =
    let going : (ec == 0) ≡ false = ground (arith, n) in
    elim (Bool-cases (closing == 0)) [
      | inr stuck ↦
          rw (going, stuck) (λ e. absurd (ground arith), λ m. absurd (ground (arith, m.0)))
      | inl closes ↦
          let z : closing ≡ 0 = ground arith in
          elim (Bool-cases (c == 0)) [
            | inl e ↦
                let y : c ≡ 0 = ground arith in
                rw (going, closes, y) (λ h. (z, inl refl), λ m. stops codes)
            | inr e ↦
                let (found, met) = endpoint-Reached c codes (ground arith) in
                rw (going, closes)
                  (
                    λ h. (z, inr (found h)),
                    λ m. elim m.1 [ inl y ↦ absurd (ground (arith, e, y)) | inr r ↦ met r ],
                  )
          ]
    ]

-- The constructor returned, and the stream is good.
abbrev pub Works : Result Iostream → Type 0
Works (ok s) = s.failbit ≡ false
Works (throws e) = ⊥

opened_by : (buffer : Streambuf) (r : Result ℕ) → Works (open_resolved buffer r) ↔ (r ≡ ok 0)
unfolding open_resolved open_stream connect_stream connect
opened_by buffer (throws e) = (λ h. absurd h, λ h. absurd (ground arith))
opened_by buffer (ok zero) = (λ h. refl, λ h. refl)
opened_by buffer (ok (suc n)) = (λ h. absurd (ground arith), λ h. absurd (ground arith))

-- The constructor from a query returns with an open stream exactly if the resolver gives no error,
-- one of the endpoints that it gives can be connected to, whichever failed before, and no close of
-- the socket before that connect, or before an earlier one, fails; else failbit is set or the close
-- throws.
pub open_stream-resolved :
    (buffer : Streambuf) (host_not_found ec : ℕ) (codes : List (ℕ × ℕ))
    → host_not_found ≢ 0
    → Works (open_resolved buffer (resolve_and_connect host_not_found ec codes))
      ↔ ((ec ≡ 0) × Reached codes)
unfolding resolve_and_connect
open_stream-resolved buffer hnf ec codes n =
    let (found, met) = endpoint-Reached hnf codes n in
    let (good, opens) = opened_by buffer (resolve_and_connect hnf ec codes) in
    elim (Bool-cases (ec == 0)) [
      | inl e ↦
          let z : ec ≡ 0 = ground arith in
          let same : resolve_and_connect hnf ec codes ≡ try_endpoints hnf codes =
            rw (e, resolve_and_connect) refl in
          (λ h. (z, found (sym same ∙ good h)), λ (w, m). opens (same ∙ met m))
      | inr e ↦
          let same : resolve_and_connect hnf ec codes ≡ ok ec = rw (e, resolve_and_connect) refl in
          (λ h. absurd (ground (arith, sym same ∙ good h)), λ (w, m). absurd (ground arith))
    ]
