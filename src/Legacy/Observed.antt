-- ===== src/Legacy/Observed.antt =====
-- What the statistics of legacy/myhttpd.cc say of the requests that were counted, and that the update
-- keeps it.
use http_server.Prelude.{
  ℕ, ◌≡◌, ◌≤◌, refl, Bool, ◌||◌, true, false, List, [], ◌∷◌, Bytes, ltb, arith, ◌⊎◌, inl, inr,
  length, All, All-map, ℤ, pos, negsuc, if◌then◌else◌,
}
use http_server.Legacy.Replies.{Statistics}
use http_server.Legacy.Client.{update_statistics, less_time}
use http_server.Legacy.Launch.{}

-- A counted request: its URL and its time.
abbrev pub Observed : Type 0
Observed = Bytes × ℕ

abbrev pub Among : Observed → List Observed → Type 0
Among o [] = ⊥
Among o (x ∷ xs) = (o ≡ x) ⊎ Among o xs

-- The time and the URL of a counted request that no other stands before in an order.
abbrev pub IsExtreme : (ℕ → ℕ → Type 0) → List Observed → ℤ → Bytes → Type 0
IsExtreme R seen time url =
    (ticks : ℕ) × (time ≡ pos ticks) × Among (url, ticks) seen × All (λ o. R ticks o.1) seen

abbrev pub Extremes : List Observed → Statistics → Type 0
Extremes [] st = (st.min_service_time ≡ negsuc 0) × (st.max_service_time ≡ negsuc 0)
Extremes (o ∷ seen) st =
    IsExtreme (λ a b. a ≤ b) (o ∷ seen) st.min_service_time st.min_url
    × IsExtreme (λ a b. b ≤ a) (o ∷ seen) st.max_service_time st.max_url

-- The statistics are those of some requests.
pub record Summarises (seen : List Observed) (st : Statistics) : Type 0 where
  pub count : st.total_requests ≡ length seen
  pub extremes : Extremes seen st

-- One request more: it is the extreme, or the old one stays.
step-IsExtreme :
    (R : ℕ → ℕ → Type 0) (better : Bool) (url url' : Bytes) (t a : ℕ) (time : ℤ)
    (seen : List Observed)
    → time ≡ pos a
    → (better ≡ true → R t t × All (λ o. R t o.1) seen)
    → (better ≡ false → R a t)
    → Among (url', a) seen
    → All (λ o. R a o.1) seen
    → IsExtreme R ((url, t) ∷ seen) (if better then pos t else time) (if better then url else url')
step-IsExtreme R true url url' t a time seen e new old found h = (t, refl, inl refl, new refl)
step-IsExtreme R false url url' t a time seen e new old found h = (a, e, inr found, (old refl, h))

is_shorter :
    (time : ℤ) (a t : ℕ)
    → time ≡ pos a
    → (less_time time (pos 0) || less_time (pos t) time) ≡ ltb t a
is_shorter time a t e = rw e (ground arith)

is_longer : (time : ℤ) (a t : ℕ) → time ≡ pos a → less_time time (pos t) ≡ ltb a t
is_longer time a t e = rw e refl

update-Extremes :
    (url : Bytes) (t : ℕ) (seen : List Observed) (st : Statistics)
    → Extremes seen st
    → Extremes ((url, t) ∷ seen) (update_statistics url t st)
unfolding update_statistics
update-Extremes url t [] st (e, k) =
    rw (e, k) ((t, refl, inl refl, (omega arith, tt)), (t, refl, inl refl, (omega arith, tt)))
update-Extremes url t (o ∷ seen) st ((a, e, found, least), (b, k, found', most)) = (
  step-IsExtreme (λ x y. x ≤ y) _ url st.min_url t a st.min_service_time (o ∷ seen) e
      (λ h. (
        omega arith,
        All-map (λ x. a ≤ x.1) (λ x. t ≤ x.1)
            (λ x m. ground (arith, is_shorter st.min_service_time a t e)) (o ∷ seen) least,
      ))
      (λ h. ground (arith, is_shorter st.min_service_time a t e)) found least,
  step-IsExtreme (λ x y. y ≤ x) _ url st.max_url t b st.max_service_time (o ∷ seen) k
      (λ h. (
        omega arith,
        All-map (λ x. x.1 ≤ b) (λ x. x.1 ≤ t)
            (λ x m. ground (arith, is_longer st.max_service_time b t k)) (o ∷ seen) most,
      ))
      (λ h. ground (arith, is_longer st.max_service_time b t k)) found' most,
)

pub update-Summarises :
    (url : Bytes) (t : ℕ) (seen : List Observed) (st : Statistics)
    → Summarises seen st
    → Summarises ((url, t) ∷ seen) (update_statistics url t st)
unfolding update_statistics
update-Summarises url t seen st h = record {
  count = omega (arith, h.count);
  extremes = update-Extremes url t seen st h.extremes;
}
