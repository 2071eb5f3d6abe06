-- ===== src/Analyzer/Summary/Buckets.antt =====
-- `Summarize`: each service's bucket counts and adds up the zombies of that service.
use axiaops.Common.{
  if◌then◌else◌, length, count_if, ◌==◌, string_eq, nat_eq, ℕ, zero, suc, ◌+◌, String, ◌≡◌, refl,
  ap, ◌∙◌, Option, none, some, List, [], ◌∷◌, arith,
}
use axiaops.Common.Float.{Float}
use axiaops.Common.Dict.{Dict, lookup, insert, lookup-insert, lookup-nil}
use axiaops.Catalog.{ZombieResource}
use axiaops.Analyzer.Summary.{
  ServiceSummary, Summary, round2, bump, summarize_step, summarize_from, round_all, summarize,
  new_summary,
}

-- How many zombies are of a service.
abbrev pub count_of : {F : Type 0} → String → List (ZombieResource F) → ℕ
count_of svc = count_if (λ z. svc == z.service)

module _ (fl : Float) where
  open fl use {F, of_nat, add}

  -- The costs of the zombies of a service, added from the left to `acc`.
  abbrev pub sum_of : F → String → List (ZombieResource F) → F
  sum_of acc svc [] = acc
  sum_of acc svc (z ∷ zs) = sum_of (if svc == z.service then add acc z.monthly_cost else acc) svc zs

  -- One bucket followed through the loop.
  grow : Option (ServiceSummary F) → String → List (ZombieResource F) → Option (ServiceSummary F)
  grow o svc [] = o
  grow o svc (z ∷ zs) =
      grow (if svc == z.service then some (bump fl o z.monthly_cost) else o) svc zs

  lookup-summarize_from :
      (s : Summary F) (svc : String) (zs : List (ZombieResource F))
      → lookup svc (summarize_from fl s zs).by_service ≡ grow (lookup svc s.by_service) svc zs
  unfolding summarize_from grow summarize_step
  lookup-summarize_from s svc [] = refl
  lookup-summarize_from s svc (z ∷ zs) =
      let b = bump fl (lookup z.service s.by_service) z.monthly_cost in
      lookup-summarize_from (summarize_step fl s z) svc zs
      ∙ ap (λ o. grow o svc zs) (ground (arith, lookup-insert svc z.service b s.by_service))

  grow-some :
      (b : ServiceSummary F) (svc : String) (zs : List (ZombieResource F))
      → grow (some b) svc zs
        ≡ some (record { zombies = b.zombies + count_of svc zs; savings = sum_of b.savings svc zs })
  unfolding grow
  grow-some b svc [] = ground arith
  grow-some b svc (z ∷ zs) =
      ground (arith, grow-some (bump fl (some b) z.monthly_cost) svc zs, grow-some b svc zs)

  -- The bucket that a count and a sum make; a service that nothing was counted for has none.
  abbrev pub bucket : ℕ → F → Option (ServiceSummary F)
  bucket zero savings = none
  bucket (suc n) savings = some (record { zombies = suc n; savings = savings })

  grow-none :
      (svc : String) (zs : List (ZombieResource F))
      → grow none svc zs ≡ bucket (count_of svc zs) (sum_of (of_nat 0) svc zs)
  unfolding grow
  grow-none svc [] = refl
  grow-none svc (z ∷ zs) =
      ground (arith, grow-some (bump fl none z.monthly_cost) svc zs, grow-none svc zs)

  lookup-round_all :
      (svc : String) (d : Dict String (ServiceSummary F)) (n : ℕ) (savings : F)
      → lookup svc d ≡ bucket n savings
      → lookup svc (round_all fl d) ≡ bucket n (round2 fl savings)
  unfolding lookup round_all
  lookup-round_all svc [] n savings h = ground arith
  lookup-round_all svc ((k, b) ∷ d) n savings h = ground (arith, lookup-round_all svc d n savings)

  -- The bucket of a service in the result of `Summarize` holds the number of its zombies and their
  -- costs added up in order and rounded; a service with no zombie has no bucket.
  pub lookup-summarize :
      (svc : String) (zs : List (ZombieResource F))
      → lookup svc (summarize fl zs).by_service
        ≡ bucket (count_of svc zs) (round2 fl (sum_of (of_nat 0) svc zs))
  unfolding summarize
  lookup-summarize svc zs =
      lookup-round_all svc (summarize_from fl (new_summary fl (length zs)) zs).by_service
        (count_of svc zs) (sum_of (of_nat 0) svc zs)
        (lookup-summarize_from (new_summary fl (length zs)) svc zs
          ∙ ap (λ o. grow o svc zs) (lookup-nil svc)
          ∙ grow-none svc zs)

  -- The zombies counted in all buckets.
  abbrev pub total_of : Dict String (ServiceSummary F) → ℕ
  total_of [] = 0
  total_of ((svc, b) ∷ d) = b.zombies + total_of d

  total_of-insert :
      (svc : String) (cost : F) (d : Dict String (ServiceSummary F))
      → total_of (insert svc (bump fl (lookup svc d) cost) d) ≡ total_of d + 1
  unfolding insert lookup
  total_of-insert svc cost [] = ground arith
  total_of-insert svc cost ((k, b) ∷ d) = ground (arith, total_of-insert svc cost d)

  total_of-summarize_from :
      (s : Summary F) (zs : List (ZombieResource F))
      → total_of (summarize_from fl s zs).by_service ≡ total_of s.by_service + length zs
  unfolding summarize_from summarize_step
  total_of-summarize_from s [] = omega arith
  total_of-summarize_from s (z ∷ zs) = omega (
    arith,
    total_of-summarize_from (summarize_step fl s z) zs,
    total_of-insert z.service z.monthly_cost s.by_service,
  )

  total_of-round_all : (d : Dict String (ServiceSummary F)) → total_of (round_all fl d) ≡ total_of d
  unfolding round_all
  total_of-round_all [] = refl
  total_of-round_all ((svc, b) ∷ d) = omega (arith, total_of-round_all d)

  total_zombies-summarize_from :
      (s : Summary F) (zs : List (ZombieResource F))
      → (summarize_from fl s zs).total_zombies ≡ s.total_zombies
  unfolding summarize_from summarize_step
  total_zombies-summarize_from s [] = refl
  total_zombies-summarize_from s (z ∷ zs) = total_zombies-summarize_from (summarize_step fl s z) zs

  -- No zombie is lost and none is counted twice: the buckets of `Summarize` add up to its total,
  -- which is the number of zombies.
  pub total_of-summarize :
      (zs : List (ZombieResource F))
      → (total_of (summarize fl zs).by_service ≡ length zs)
        × ((summarize fl zs).total_zombies ≡ length zs)
  unfolding summarize
  total_of-summarize zs =
      let s = summarize_from fl (new_summary fl (length zs)) zs in
      (
        total_of-round_all s.by_service
            ∙ total_of-summarize_from (new_summary fl (length zs)) zs
            ∙ omega arith,
        total_zombies-summarize_from (new_summary fl (length zs)) zs,
      )
