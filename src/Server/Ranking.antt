-- ===== src/Server/Ranking.antt =====
-- The order in which the drivers that were found are asked.
use mathlib.Core.Path.{subst}
use mathlib.Core.List.{Perm}
use mathlib.Core.List.Perm
use rideshare_simulation_pla.Prelude.{
  ℕ, ◌≤◌, ◌≡◌, refl, ap, ◌⊎◌, All, ◌∙◌, min, max, inl, inr, true, false, List, [], ◌∷◌, arith,
  Bool-cases, map,
}
use rideshare_simulation_pla.Prelude.Ratio.{Ratio, ltb_ratio}
use rideshare_simulation_pla.Server.{Server, Ranked}
use rideshare_simulation_pla.Server.Search.{
  Timed, rank_drivers, score_all, sort_by_score, insert_by_score, composite_score, min_eta, max_eta,
}

-- No driver is asked right before one with a better score.
abbrev pub IsRanked : List Ranked → Type 0
IsRanked [] = Unit
IsRanked (r ∷ []) = Unit
IsRanked (r ∷ s ∷ ss) = (ltb_ratio r.score s.score ≡ false) × IsRanked (s ∷ ss)

insert_by_score-perm : (r : Ranked) (rs : List Ranked) → Perm (insert_by_score r rs) (r ∷ rs)
unfolding insert_by_score
insert_by_score-perm r [] = Perm.refl _
insert_by_score-perm r (s ∷ ss) = elim (Bool-cases (ltb_ratio r.score s.score)) [
  | inl e ↦
      rw (e, insert_by_score)
        (Perm.trans (Perm.cons s (insert_by_score-perm r ss)) (Perm.swap r s ss))
  | inr e ↦ rw (e, insert_by_score) (Perm.refl _)
]

sort_by_score-perm : (rs : List Ranked) → Perm (sort_by_score rs) rs
unfolding sort_by_score
sort_by_score-perm [] = Perm.refl _
sort_by_score-perm (r ∷ rs) =
    Perm.trans (insert_by_score-perm r (sort_by_score rs)) (Perm.cons r (sort_by_score-perm rs))

ltb_ratio_asymm : (a b : Ratio) → ltb_ratio a b ≡ true → ltb_ratio b a ≡ false
ltb_ratio_asymm a b h = ground arith

-- Put behind a better one, a list that is ranked stays so.
insert_by_score-behind :
    (q r : Ranked) (rs : List Ranked)
    → ltb_ratio r.score q.score ≡ true
    → IsRanked (q ∷ rs)
    → IsRanked (insert_by_score r rs)
    → IsRanked (q ∷ insert_by_score r rs)
unfolding insert_by_score
insert_by_score-behind q r [] h k m = (ltb_ratio_asymm r.score q.score h, tt)
insert_by_score-behind q r (s ∷ ss) h k m = ground (arith, ltb_ratio_asymm r.score q.score h)

ranked_tail : (q : Ranked) (rs : List Ranked) → IsRanked (q ∷ rs) → IsRanked rs
ranked_tail q [] h = tt
ranked_tail q (s ∷ ss) h = h.1

insert_by_score-IsRanked :
    (r : Ranked) (rs : List Ranked) → IsRanked rs → IsRanked (insert_by_score r rs)
unfolding insert_by_score
insert_by_score-IsRanked r [] h = tt
insert_by_score-IsRanked r (s ∷ ss) h = elim (Bool-cases (ltb_ratio r.score s.score)) [
  | inl e ↦
      rw (e, insert_by_score)
        (insert_by_score-behind s r ss e h (insert_by_score-IsRanked r ss (ranked_tail s ss h)))
  | inr e ↦ rw (e, insert_by_score) (e, h)
]

sort_by_score-IsRanked : (rs : List Ranked) → IsRanked (sort_by_score rs)
unfolding sort_by_score
sort_by_score-IsRanked [] = tt
sort_by_score-IsRanked (r ∷ rs) =
    insert_by_score-IsRanked r (sort_by_score rs) (sort_by_score-IsRanked rs)

-- A driver that was found, with its composite score where the ETAs found lie between these two.
abbrev pub scored : Server → ℕ → ℕ → Timed → Ranked
scored w lo hi t = record {
  driver_id = t.driver_id;
  eta_seconds = t.eta_seconds;
  score = composite_score w.config lo hi t (w.driver t.driver_id);
}

abbrev pub IsWithin : ℕ → ℕ → List Timed → Type 0
IsWithin lo hi = All λ t. (lo ≤ t.eta_seconds) × (t.eta_seconds ≤ hi)

-- Some driver that was found has this ETA.
abbrev pub IsEta : ℕ → List Timed → Type 0
IsEta m [] = ⊥
IsEta m (t ∷ ts) = (t.eta_seconds ≡ m) ⊎ IsEta m ts

score_all-map :
    (w : Server) (lo hi : ℕ) (ts : List Timed) → score_all w lo hi ts ≡ map (scored w lo hi) ts
unfolding score_all
score_all-map w lo hi [] = refl
score_all-map w lo hi (t ∷ ts) = ap (◌∷◌ (scored w lo hi t)) (score_all-map w lo hi ts)

-- Bounds that are attained are the least and the greatest ETA, which the loops over the list find.
min_eta-least :
    (m lo : ℕ) (ts : List Timed)
    → lo ≤ m
    → All (λ t. lo ≤ t.eta_seconds) ts
    → (m ≡ lo) ⊎ IsEta lo ts
    → min_eta m ts ≡ lo
unfolding min_eta
min_eta-least m lo [] h k (inl e) = e
min_eta-least m lo [] h k (inr e) = absurd e
min_eta-least m lo (t ∷ ts) h k (inl e) =
    min_eta-least (min m t.eta_seconds) lo ts (omega (arith, k.0)) k.1 (inl (omega (arith, k.0)))
min_eta-least m lo (t ∷ ts) h k (inr (inl e)) =
    min_eta-least (min m t.eta_seconds) lo ts (omega (arith, k.0)) k.1 (inl (omega (arith, e)))
min_eta-least m lo (t ∷ ts) h k (inr (inr e)) =
    min_eta-least (min m t.eta_seconds) lo ts (omega (arith, k.0)) k.1 (inr e)

max_eta-greatest :
    (m hi : ℕ) (ts : List Timed)
    → m ≤ hi
    → All (λ t. t.eta_seconds ≤ hi) ts
    → (m ≡ hi) ⊎ IsEta hi ts
    → max_eta m ts ≡ hi
unfolding max_eta
max_eta-greatest m hi [] h k (inl e) = e
max_eta-greatest m hi [] h k (inr e) = absurd e
max_eta-greatest m hi (t ∷ ts) h k (inl e) =
    max_eta-greatest (max m t.eta_seconds) hi ts (omega (arith, k.0)) k.1 (inl (omega (arith, k.0)))
max_eta-greatest m hi (t ∷ ts) h k (inr (inl e)) =
    max_eta-greatest (max m t.eta_seconds) hi ts (omega (arith, k.0)) k.1 (inl (omega (arith, e)))
max_eta-greatest m hi (t ∷ ts) h k (inr (inr e)) =
    max_eta-greatest (max m t.eta_seconds) hi ts (omega (arith, k.0)) k.1 (inr e)

lower : (lo hi : ℕ) (ts : List Timed) → IsWithin lo hi ts → All (λ t. lo ≤ t.eta_seconds) ts
lower lo hi [] h = tt
lower lo hi (t ∷ ts) h = (h.0.0, lower lo hi ts h.1)

upper : (lo hi : ℕ) (ts : List Timed) → IsWithin lo hi ts → All (λ t. t.eta_seconds ≤ hi) ts
upper lo hi [] h = tt
upper lo hi (t ∷ ts) h = (h.0.1, upper lo hi ts h.1)

-- Let two ETAs among those found bound them all. The ranking is made of the drivers that were found, each
-- as often as it was found, with its ETA and with its composite score between these two ETAs, the least
-- counting as the best; and none stands right before one whose score is better.
pub rank_drivers_lem :
    (w : Server) (ts : List Timed) (lo hi : ℕ)
    → IsWithin lo hi ts
    → IsEta lo ts
    → IsEta hi ts
    → Perm (rank_drivers w ts) (map (scored w lo hi) ts) × IsRanked (rank_drivers w ts)
unfolding rank_drivers
rank_drivers_lem w [] lo hi h l u = absurd l
rank_drivers_lem w (t ∷ ts) lo hi h l u =
    let least = min_eta-least t.eta_seconds lo ts h.0.0 (lower lo hi ts h.1) l in
    let greatest = max_eta-greatest t.eta_seconds hi ts h.0.1 (upper lo hi ts h.1) u in
    let all = score_all w (min_eta t.eta_seconds ts) (max_eta t.eta_seconds ts) (t ∷ ts) in
    (
      subst (λ l. Perm (sort_by_score all) l)
          (ap (λ m. score_all w m (max_eta t.eta_seconds ts) (t ∷ ts)) least
            ∙ ap (λ m. score_all w lo m (t ∷ ts)) greatest
            ∙ score_all-map w lo hi (t ∷ ts))
          (sort_by_score-perm all),
      sort_by_score-IsRanked all,
    )
