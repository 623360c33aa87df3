-- ===== src/Operations/Status.antt =====
-- What each public status says of the sources (runtime/operations.py).
use query_boy.Base.{
  String, true, false, not, List, [], ◌∷◌, ◌≡◌, ◌≢◌, ◌↔◌, ◌⊎◌, inl, inr, refl, sym, ◌∙◌, if-true,
  if-false, Option, none, some, arith, any, all, map, Bool-cases,
}
use query_boy.Base.Dict.{lookup}
use query_boy.Operations.{
  Health, healthy, stale, initializing, unavailable, PublicStatus, shutting_down, degraded, ready,
  OperationalState, aggregate_source_status, known_sources, aggregate_source_health, status_of,
  public_status, is_usable, is_unhealthy, is_starting,
}
use query_boy.Operations.Usable.{IsUsable-iff, IsHealthy-iff}
use query_boy.Operations.Known.{
  IsKnown, UsableSource, HealthySource, IsKnown-iff, any_of, of_any, none_of, of_none, map-ne_nil,
}

-- What is known of the sources when a status is shown.
pub record Meaning (status : PublicStatus) (s : OperationalState) : Type 0 where
  pub stopping : (status ≡ shutting_down) ↔ (s.accepting ≡ false)
  pub all_healthy :
      s.accepting ≡ true
      → (status ≡ ready)
        ↔ (((x : String) × IsKnown s x) × ((x : String) → IsKnown s x → HealthySource s x))
  pub some_usable :
      s.accepting ≡ true
      → (status ≡ degraded) ↔ (
          ((x : String) × IsKnown s x × UsableSource s x)
          × ((x : String) × IsKnown s x × (HealthySource s x → ⊥)))
  pub none_usable :
      s.accepting ≡ true
      → ((status ≡ PublicStatus.unavailable) ⊎ (status ≡ PublicStatus.initializing))
        ↔ ((x : String) → IsKnown s x → UsableSource s x → ⊥)

-- The status of a list of healths.
healthy-usable :
    (h : Health) (hs : List Health)
    → any is_unhealthy (h ∷ hs) ≡ false
    → any is_usable (h ∷ hs) ≡ true
healthy-usable healthy hs e = refl
healthy-usable stale hs e = absurd (cc e)
healthy-usable initializing hs e = absurd (cc e)
healthy-usable unavailable hs e = absurd (cc e)

ready_iff :
    (active : Option (List String)) (hs : List Health)
    → (status_of active hs ≡ ready) ↔ ((hs ≢ []) × (any is_unhealthy hs ≡ false))
unfolding status_of
ready_iff none [] = (λ e. cc, λ p. absurd (p.0 refl))
ready_iff (some a) [] = (λ e. cc, λ p. absurd (p.0 refl))
ready_iff active (h ∷ hs) = (
  λ e. (λ n. cc, ground arith),
  λ p. let usable = healthy-usable h hs p.1 in ground (arith, p.1, usable),
)

usable-unhealthy_iff :
    (active : Option (List String)) (hs : List Health)
    → (status_of active hs ≡ degraded) ↔ ((any is_usable hs ≡ true) × (any is_unhealthy hs ≡ true))
unfolding status_of
usable-unhealthy_iff none [] = (λ e. cc, λ p. cc (p.0))
usable-unhealthy_iff (some a) [] = (λ e. cc, λ p. cc (p.0))
usable-unhealthy_iff active (h ∷ hs) = (λ e. (ground arith, ground arith), λ p. rw (p.0, p.1))

unusable_iff :
    (active : Option (List String)) (hs : List Health)
    → ((status_of active hs ≡ PublicStatus.unavailable)
        ⊎ (status_of active hs ≡ PublicStatus.initializing))
      ↔ (any is_usable hs ≡ false)
unfolding status_of
unusable_iff none [] = (λ e. refl, λ p. inr refl)
unusable_iff (some a) [] = (λ e. refl, λ p. inl refl)
unusable_iff active (h ∷ hs) = (
  λ e. elim e [ inl e ↦ ground arith | inr e ↦ ground arith ],
  λ p. elim (Bool-cases (all is_starting (h ∷ hs))) [
    | inl t ↦ inr (ground arith)
    | inr t ↦ inl (ground arith)
  ],
)

status_of-ne :
    (active : Option (List String)) (hs : List Health) → status_of active hs ≢ shutting_down
unfolding status_of
status_of-ne none [] e = cc
status_of-ne (some a) [] e = cc
status_of-ne active (h ∷ hs) e = ground arith

public_status-accepting :
    (s : OperationalState)
    → s.accepting ≡ true
    → public_status s ≡ status_of s.active_sources (aggregate_source_health s)
unfolding public_status
public_status-accepting s e = if-false (not s.accepting) _ _ (rw e)

module _ (s : OperationalState) where
  abbrev status : PublicStatus
  status = status_of s.active_sources (aggregate_source_health s)

  all_healthy_iff :
      (status ≡ ready)
      ↔ (((x : String) × IsKnown s x) × ((x : String) → IsKnown s x → HealthySource s x))
  unfolding aggregate_source_health aggregate_source_status
  all_healthy_iff =
      let f = aggregate_source_status s in
      let xs = known_sources s in
      let (forth, back) = ready_iff s.active_sources (map f xs) in
      (
        λ e.
            let (some_source, sound) = forth e in
            let (x, here) = (map-ne_nil f xs).0 some_source in
            (
              (x, (IsKnown-iff s x).0 here),
              λ y k.
                  (IsHealthy-iff (lookup y s.source_metadata_health)
                      (lookup y s.source_query_health)).0
                    (none_of is_unhealthy f xs y sound ((IsKnown-iff s y).1 k)),
            ),
        λ ((x, k), sound). back (
          (map-ne_nil f xs).1 (x, (IsKnown-iff s x).1 k),
          of_none is_unhealthy f xs (λ y here.
              (IsHealthy-iff (lookup y s.source_metadata_health) (lookup y s.source_query_health)).1
                (sound y ((IsKnown-iff s y).0 here))),
        ),
      )

  not_healthy :
      (x : String) → is_unhealthy (aggregate_source_status s x) ≡ true → HealthySource s x → ⊥
  unfolding aggregate_source_status
  not_healthy x e h =
      cc (
        e,
        (IsHealthy-iff (lookup x s.source_metadata_health) (lookup x s.source_query_health)).1 h,
      )

  is_unhealthy-not_healthy :
      (x : String) → (HealthySource s x → ⊥) → is_unhealthy (aggregate_source_status s x) ≡ true
  unfolding aggregate_source_status
  is_unhealthy-not_healthy x n = elim (Bool-cases (is_unhealthy (aggregate_source_status s x))) [
    | inl e ↦ e
    | inr e ↦ absurd (
        n (
          (IsHealthy-iff (lookup x s.source_metadata_health) (lookup x s.source_query_health)).0 e))
  ]

  UsableSource-iff :
      (x : String) → (is_usable (aggregate_source_status s x) ≡ true) ↔ UsableSource s x
  unfolding aggregate_source_status
  UsableSource-iff x =
      IsUsable-iff (lookup x s.source_metadata_health) (lookup x s.source_query_health)

  some_usable_iff : (status ≡ degraded) ↔ (
      ((x : String) × IsKnown s x × UsableSource s x)
      × ((x : String) × IsKnown s x × (HealthySource s x → ⊥)))
  unfolding aggregate_source_health
  some_usable_iff =
      let f = aggregate_source_status s in
      let xs = known_sources s in
      let (forth, back) = usable-unhealthy_iff s.active_sources (map f xs) in
      (
        λ e.
            let (usable, unhealthy) = forth e in
            let (x, here, t) = any_of is_usable f xs usable in
            let (y, there, u) = any_of is_unhealthy f xs unhealthy in
            (
              (x, (IsKnown-iff s x).0 here, (UsableSource-iff x).0 t),
              (y, (IsKnown-iff s y).0 there, not_healthy y u),
            ),
        λ ((x, k, t), (y, l, u)). back (
          of_any is_usable f xs x ((IsKnown-iff s x).1 k) ((UsableSource-iff x).1 t),
          of_any is_unhealthy f xs y ((IsKnown-iff s y).1 l) (is_unhealthy-not_healthy y u),
        ),
      )

  none_usable_iff :
      ((status ≡ PublicStatus.unavailable) ⊎ (status ≡ PublicStatus.initializing))
      ↔ ((x : String) → IsKnown s x → UsableSource s x → ⊥)
  unfolding aggregate_source_health
  none_usable_iff =
      let f = aggregate_source_status s in
      let xs = known_sources s in
      let (forth, back) = unusable_iff s.active_sources (map f xs) in
      (
        λ e x k u.
            cc (
              none_of is_usable f xs x (forth e) ((IsKnown-iff s x).1 k),
              (UsableSource-iff x).1 u,
            ),
        λ unusable. back (
            of_none is_usable f xs (λ x here. elim (Bool-cases (is_usable (f x))) [
              | inl t ↦ absurd (unusable x ((IsKnown-iff s x).0 here) ((UsableSource-iff x).0 t))
              | inr t ↦ t
            ])),
      )

-- The public status is "shutting_down" exactly when requests are no longer accepted. Otherwise, of the
-- sources that have a metadata or a query health: it is "ready" exactly when there is one and all are
-- healthy, "degraded" exactly when one can be queried and one is not healthy, and "unavailable" or
-- "initializing" exactly when none can be queried. A source is healthy if neither health is unavailable or
-- initializing and its metadata is not stale; it can be queried also if its metadata is stale, and no
-- health is unavailable.
pub public_status-Meaning : (s : OperationalState) → Meaning (public_status s) s
public_status-Meaning s = record {
  stopping = (
    λ e. elim (Bool-cases s.accepting) [
      | inl a ↦ absurd (status_of-ne _ _ (sym (public_status-accepting s a) ∙ e))
      | inr a ↦ a
    ],
    λ a. unfold public_status in if-true (not s.accepting) _ _ (rw a),
  );
  all_healthy = λ a. rw (public_status-accepting s a) (all_healthy_iff s);
  some_usable = λ a. rw (public_status-accepting s a) (some_usable_iff s);
  none_usable = λ a. rw (public_status-accepting s a) (none_usable_iff s);
}
