-- ===== src/Messaging/Publisher/Looks.antt =====
-- Looks at the shutdown flag of src/messaging/outbox-publisher.ts: rules on the work between them.
use jungle_backend_challenge.Prelude.{
  ℕ, ◌+◌, ◌≤◌, ◌<◌, ◌≡◌, refl, ◌∙◌, subst, Bool-cases, inl, inr, leb, ltb, true, ◌||◌, Option, none,
  some, arith,
}
use jungle_backend_challenge.Prelude.Results.{Result, ok, err}
use jungle_backend_challenge.Domain.Errors.{Thrown}
use jungle_backend_challenge.Database.Tx.{Tx}
use jungle_backend_challenge.Messaging.Shutdown.{Coordinator, begin_work, end_work}
use jungle_backend_challenge.Messaging.Jobs.{
  Outside, Station, PublishError, Job, ◌>>=◌, pure, query, issued, attempt, counted, closed,
  is_shutting_down, ended, transactional,
}

flag-end_work : (c : Coordinator) → (end_work c).shutting_down ≡ c.shutting_down
unfolding end_work
flag-end_work c = elim (Bool-cases (leb c.inflight 1)) [ inl e ↦ rw e refl | inr e ↦ rw e refl ]

module _ (out : Outside) (k : ℕ) (signal : out.signalled k ≡ true) where
  -- Looks are counted up, and once look `k` is over, the flag is set.
  pub record IsLater (s t : Station) : Type 0 where
    pub looks : s.looks ≤ t.looks
    pub flag :
        (k < s.looks → s.coordinator.shutting_down ≡ true)
        → k < t.looks
        → t.coordinator.shutting_down ≡ true

  pub IsLater-refl : (s : Station) → IsLater s s
  IsLater-refl s = record { looks = omega arith; flag = λ h. h }

  IsLater-trans : {s t u : Station} → IsLater s t → IsLater t u → IsLater s u
  IsLater-trans a b = record {
    looks = omega (arith, a.looks, b.looks);
    flag = λ h. b.flag (a.flag h);
  }

  pub record Passes {A : Type 0} (m : Job A) : Type 0 where
    pub at : (s : Station) → IsLater s (m s).1

  module _ {A : Type 0} where
    pub Passes-pure : (a : A) → Passes (pure a)
    Passes-pure a = record { at = λ s. IsLater-refl s }

    pub Passes-query : (m : Tx A) → Passes (query out m)
    unfolding query issued
    Passes-query m = record { at = λ s. go s (out.failing s.statements) }
      where
        go : (s : Station) (failing : Option Thrown) → IsLater s (issued m failing s).1
        go s none = record { looks = omega arith; flag = λ h. h }
        go s (some e) = record { looks = omega arith; flag = λ h. h }

    pub Passes-bind :
        {B : Type 0} (m : Job A) (f : A → Job B)
        → Passes m
        → ((a : A) → Passes (f a))
        → Passes (m >>= f)
    Passes-bind m f p q = record { at = λ s. go s (m s) (p.at s) }
      where
        go :
            (s : Station) (r : Result PublishError A × Station)
            → IsLater s r.1
            → IsLater s (((λ _. r) >>= f) s).1
        go s (ok a, t) l = IsLater-trans l ((q a).at t)
        go s (err e, t) l = l

    pub Passes-attempt :
        (m : Job A) (recover : PublishError → Job A)
        → Passes m
        → ((e : PublishError) → Passes (recover e))
        → Passes (attempt m recover)
    unfolding attempt
    Passes-attempt m recover p q = record { at = λ s. go s (m s) (p.at s) }
      where
        go :
            (s : Station) (r : Result PublishError A × Station)
            → IsLater s r.1
            → IsLater s (attempt (λ _. r) recover s).1
        go s (ok a, t) l = l
        go s (err e, t) l = IsLater-trans l ((q e).at t)

    pub Passes-counted : (m : Job A) → Passes m → Passes (counted m)
    unfolding counted begin_work
    Passes-counted m p = record {
      at = λ s.
          let l = p.at (record s { coordinator = begin_work s.coordinator }) in
          record {
            looks = l.looks;
            flag = λ h after.
                flag-end_work
                  (m (record s { coordinator = begin_work s.coordinator })).1.coordinator
                ∙ l.flag h after;
          };
    }

    pub Passes-transactional : (m : Job A) → Passes m → Passes (transactional out m)
    unfolding transactional ended closed
    Passes-transactional m p = record { at = λ s. go s (m s) (p.at s) }
      where
        ends :
            (s : Station) (a : A) (t : Station) (o : Option Thrown)
            → IsLater s t
            → IsLater s (closed s.world a o t).1
        ends s a t none l = record { looks = l.looks; flag = l.flag }
        ends s a t (some e) l = record { looks = l.looks; flag = l.flag }

        go :
            (s : Station) (r : Result PublishError A × Station)
            → IsLater s r.1
            → IsLater s (ended out s.world r).1
        go s (ok a, t) l = ends s a t (out.lost_commit t.transactions) l
        go s (err e, t) l = record { looks = l.looks; flag = l.flag }

  pub Passes-is_shutting_down : Passes (is_shutting_down out)
  unfolding is_shutting_down
  Passes-is_shutting_down = record {
    at = λ s. record { looks = omega arith; flag = λ h after. seen s h after };
  }
    where
      seen :
          (s : Station)
          → (k < s.looks → s.coordinator.shutting_down ≡ true)
          → k < s.looks + 1
          → (s.coordinator.shutting_down || out.signalled s.looks) ≡ true
      seen s h after = elim (Bool-cases (ltb k s.looks)) [
        | inl before ↦ ground (arith, h (ground arith))
        | inr now ↦
            let same : k ≡ s.looks = ground arith in
            ground (arith, subst (λ i. out.signalled i ≡ true) same signal)
      ]
