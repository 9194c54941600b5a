-- ===== src/Proxy/Ledger.antt =====
-- The counter `inflight_` against the signaled requests: each completion takes off the count in its
-- identifier, so what is in flight is what the accepted chains signal less what has completed.
use m_kernel.Prelude.{
  ℕ, ◌+◌, List, [], ◌∷◌, ◌++◌, true, false, if◌then◌else◌, All, All-append, ◌≡◌, ap, arith, refl,
  ◌<◌, ◌^◌, ◌∙◌, sym, append_assoc,
}
use m_kernel.Prelude.Int.{sub_ℕ}
use m_kernel.Proxy.{Proxy, WorkRequest, Post, plus, minus}
use m_kernel.Proxy.WrId.{decode_wr_count, encode_wr_id, decode-encode_wr_id}

-- What the completion of a request takes off the counter; only a signaled one has a completion.
unfoldable pub signaled_count : WorkRequest → ℕ
signaled_count wr = if wr.is_signaled then decode_wr_count wr.wr_id else 0

unfoldable pub chain_count : List WorkRequest → ℕ
chain_count [] = 0
chain_count (wr ∷ wrs) = signaled_count wr + chain_count wrs

unfoldable pub posts_count : List Post → ℕ
posts_count [] = 0
posts_count (p ∷ ps) = chain_count p.chain + posts_count ps

abbrev pub Quiet : List WorkRequest → Type 0
Quiet wrs = All (λ (wr : WorkRequest). wr.is_signaled ≡ false) wrs

-- Only the last request of the chain is signaled, with the identifier `id`.
pub record Signed (wrs : List WorkRequest) (id : ℕ) : Type 0 where
  pub before : List WorkRequest
  pub final : WorkRequest
  pub parts : wrs ≡ before ++ (final ∷ [])
  pub quiet : Quiet before
  pub signaled : final.is_signaled ≡ true
  pub names : final.wr_id ≡ id

pub chain_count-append :
    (xs ys : List WorkRequest) → chain_count (xs ++ ys) ≡ chain_count xs + chain_count ys
unfolding chain_count
chain_count-append [] ys = omega arith
chain_count-append (x ∷ xs) ys = omega (arith, chain_count-append xs ys)

pub posts_count-append :
    (ps qs : List Post) → posts_count (ps ++ qs) ≡ posts_count ps + posts_count qs
unfolding posts_count
posts_count-append [] qs = omega arith
posts_count-append (p ∷ ps) qs = omega (arith, posts_count-append ps qs)

pub Quiet-chain_count : (wrs : List WorkRequest) → Quiet wrs → chain_count wrs ≡ 0
unfolding chain_count signaled_count
Quiet-chain_count [] h = refl
Quiet-chain_count (wr ∷ wrs) (h, k) = rw h (omega (arith, Quiet-chain_count wrs k))

pub Signed-chain_count :
    {wrs : List WorkRequest} (qp count : ℕ)
    → qp < 2 ^ 31
    → count < 2 ^ 31
    → Signed wrs (encode_wr_id qp count)
    → chain_count wrs ≡ count
unfolding signaled_count chain_count
Signed-chain_count qp count hq hc sg =
    ap chain_count sg.parts
    ∙ omega (
      arith,
      chain_count-append sg.before (sg.final ∷ []),
      Quiet-chain_count sg.before sg.quiet,
      last,
    )
  where
    last : signaled_count sg.final ≡ count
    last = rw (sg.signaled, sg.names) (decode-encode_wr_id qp count hq hc).1

-- A quiet chain before a signed one.
pub Quiet-Signed :
    (xs : List WorkRequest) {ys : List WorkRequest} {id : ℕ}
    → Quiet xs
    → Signed ys id
    → Signed (xs ++ ys) id
Quiet-Signed xs q sg = record {
  before = xs ++ sg.before;
  final = sg.final;
  parts = ap (λ l. xs ++ l) sg.parts ∙ sym (append_assoc xs sg.before (sg.final ∷ []));
  quiet = All-append _ xs sg.before q sg.quiet;
  signaled = sg.signaled;
  names = sg.names;
}

pub plus-sub_ℕ : (a b c : ℕ) → plus (sub_ℕ a b) c ≡ sub_ℕ (a + c) b
unfolding plus
plus-sub_ℕ a b c = ground arith

pub minus-sub_ℕ : (a b c : ℕ) → minus (sub_ℕ a b) c ≡ sub_ℕ a (b + c)
unfolding minus
minus-sub_ℕ a b c = ground arith

-- The counter is behind what is posted and not yet completed by `owed`.
pub record Owed (s : Proxy) (owed : ℕ) : Type 0 where
  pub accounts : plus s.inflight owed ≡ sub_ℕ (posts_count s.posted) s.retired
