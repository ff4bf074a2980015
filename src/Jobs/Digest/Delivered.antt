-- ===== src/Jobs/Digest/Delivered.antt =====
-- Who gets the digest: each recipient whom it can reach, whatever happens to the others.
use chic_mcp.Prelude.{
  ℕ, ◌≡◌, refl, ap, Bool, some, List, [], ◌∷◌, map, filter, String, Bool-cases, inl, inr,
}
use chic_mcp.Aggregate.Money.{Money}
use chic_mcp.Aggregate.Models.Lines.{DashboardSummary}
use chic_mcp.Jobs.Digest.{Context, Delivery, compose, deliver_all, with_dashboard, run_in, run}

-- The chats in which a digest arrived
abbrev pub reached : List Delivery → List ℕ
reached ds = map (λ d. d.chat) (filter (λ d. d.arrived) ds)

deliver_all-reached :
    (notify : ℕ → String → Bool) (text : String) (chats : List ℕ)
    → reached (deliver_all notify text chats) ≡ filter (λ c. notify c text) chats
unfolding deliver_all
deliver_all-reached notify text [] = refl
deliver_all-reached notify text (c ∷ chats) = elim (Bool-cases (notify c text)) [
  | inl sent ↦ rw sent (ap (◌∷◌ c) (deliver_all-reached notify text chats))
  | inr failed ↦ rw failed (deliver_all-reached notify text chats)
]

-- If the dashboard can be fetched, a run ends, and the digest arrives at just those recipients, in
-- their order, whom a message with its text can reach: a delivery that fails takes it from no other.
pub run-reached :
    (money : Money → String → String) (ctx : Context) (dash : DashboardSummary)
    → ctx.dashboard ≡ some dash
    → (ds : List Delivery) × (run money (some ctx) ≡ some ds)
      × (reached ds ≡ filter (λ c. ctx.notify c (compose money dash ctx.currency)) ctx.recipients)
unfolding run run_in with_dashboard
run-reached money ctx dash h = by_recipients ctx.recipients
  where
    by_recipients :
        (chats : List ℕ)
        → (ds : List Delivery) × (run_in money ctx chats ≡ some ds)
          × (reached ds ≡ filter (λ c. ctx.notify c (compose money dash ctx.currency)) chats)
    by_recipients [] = ([], refl, refl)
    by_recipients (c ∷ chats) = (
      deliver_all ctx.notify (compose money dash ctx.currency) (c ∷ chats),
      rw (with_dashboard, h) refl,
      deliver_all-reached ctx.notify (compose money dash ctx.currency) (c ∷ chats),
    )
