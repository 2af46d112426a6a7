-- ===== src/Link/Service/Collisions.antt =====
-- The generator behind the service: `Create` never meets a code that is taken.
pub mod Steps
mod Tests
use mathlib.Core.Path.{subst}
use mathlib.Core.List.{Memᴰ}
use linkpulse_link.Base.{◌≡◌, ◌≢◌, ◌⊎◌, inl, inr, refl, sym, ap, ◌∙◌, Option, List, ◌∷◌}
use linkpulse_link.Base.Text.{Text}
use linkpulse_link.Base.Word.{Int64}
use linkpulse_link.Shortcode.{encode}
use linkpulse_link.Shortcode.RoundTrip.{encode_injective}
use linkpulse_link.Net.Url.{UrlLib}
use linkpulse_link.Link.{
  Time, Duration, Reason, invalid_url, Fault, collision, id_generation, Error, internal, Result, ok,
  err, hangs, Link,
}
use linkpulse_link.Link.Action.{World, continue-elim}
use linkpulse_link.Link.Ports.{
  Resolved, Repository, Cache, IdReply, fresh, refused, blocks, IsRepository,
}
use linkpulse_link.Link.Validate.{normalize_and_validate_url}
use linkpulse_link.Link.Validate.Refused.{validate-Refuses}
use linkpulse_link.Link.Service.{Service, id_result, create}
use linkpulse_link.Link.Service.Creating.{made}
use linkpulse_link.Snowflake.Ids.{Ids, snowflake, next_reply}
use linkpulse_link.Snowflake.History.{
  IsOld, IsOld-IsNonneg, IsLive, IsFresh, IsKept, next_reply-cases,
}

-- A repository reports a collision only where the code or the ID is taken.
pub record IsHonest {R : Type 0} (repo : Repository R) (rows : R → List Link) : Type 0 where
  pub collides :
      (l : Link) (r : R)
      → (repo.create l r).0 ≡ err (internal collision)
      → (x : Link) × Memᴰ x (rows r) × ((x.short_code ≡ l.short_code) ⊎ (x.id ≡ l.id))

-- A link with an ID that exists already, under its code.
pub record IsIssued (ids : Ids) (x : Link) : Type 0 where
  pub old : IsOld ids x.id
  pub coded : x.short_code ≡ encode x.id

module _ {R K : Type 0} (rows : R → List Link) where
  -- The generator can go on, and what is stored has been issued.
  pub record IsHistoric (w : World R K Ids) : Type 0 where
    pub live : IsLive w.ids
    pub issued : (x : Link) → Memᴰ x (rows w.repo) → IsIssued w.ids x

-- A service on the generator.
abbrev pub on_snowflake :
    {R K : Type 0} → Repository R → Cache K → Text → Duration → Service R K Ids
on_snowflake repo cache base_url ttl = record {
  repo = repo;
  cache = cache;
  ids = snowflake;
  base_url = base_url;
  cache_ttl = ttl;
}

-- What `Create` leaves has been issued.
IsIssued-stays :
    (ids ids' : Ids) (x : Link)
    → ((old : Int64) → IsOld ids old → IsOld ids' old)
    → IsIssued ids x
    → IsIssued ids' x
IsIssued-stays ids ids' x stays h = record { old = stays x.id h.old; coded = h.coded }

module _ {R K : Type 0} {rows : R → List Link} where
  pub kept-IsHistoric :
      (w w' : World R K Ids)
      → IsHistoric rows w
      → rows w'.repo ≡ rows w.repo
      → IsKept w.ids w'.ids
      → IsHistoric rows w'
  kept-IsHistoric w w' h same kept = record {
    live = kept.live;
    issued = λ x m. IsIssued-stays w.ids w'.ids x kept.stays (h.issued x (rw same at m));
  }

  pub added-IsHistoric :
      (w w' : World R K Ids) (l : Link)
      → IsHistoric rows w
      → rows w'.repo ≡ l ∷ rows w.repo
      → IsKept w.ids w'.ids
      → IsIssued w'.ids l
      → IsHistoric rows w'
  added-IsHistoric w w' l h more kept new = record {
    live = kept.live;
    issued = λ x m. added x (rw more at m);
  }
    where
      added : (x : Link) → Memᴰ x (l ∷ rows w.repo) → IsIssued w'.ids x
      added x (Memᴰ.head e) = rw e new
      added x (Memᴰ.tail m) = IsIssued-stays w.ids w'.ids x kept.stays (h.issued x m)

-- What a call of the generator does, whether it gives an ID or not.
pub drawn :
    (ids : Ids)
    → IsLive ids
    → IsKept ids (next_reply ids).1
      × ((id : Int64) → id_result (next_reply ids).0 ≡ ok id → IsOld (next_reply ids).1 id)
drawn ids live = elim (next_reply-cases ids live) [
  | inl (id', reply, is_fresh) ↦ (
    record { stays = is_fresh.stays; live = is_fresh.live },
    λ id got.
        let same : id' ≡ id = cc (ap id_result (sym reply) ∙ got) in
        subst (IsOld (next_reply ids).1) same is_fresh.counted,
  )
  | inr (inl no_id, kept) ↦ (kept, λ id got. cc (rw no_id at got))
  | inr (inr no_id, kept) ↦ (kept, λ id got. cc (rw no_id at got))
]

module _ {R K : Type 0} (repo : Repository R) (cache : Cache K) (base_url : Text) (ttl : Duration)
    {rows : R → List Link} (honest : IsHonest repo rows) (lib : UrlLib) where
  abbrev s : Service R K Ids
  s = on_snowflake repo cache base_url ttl

  id_result-ne-collision : (r : IdReply) (e : Error) → id_result r ≡ err e → e ≢ internal collision
  id_result-ne-collision (fresh id) e h = λ q. cc
  id_result-ne-collision refused e h = λ q. cc
  id_result-ne-collision blocks e h = λ q. cc

  insert-ne-collision :
      (w : World R K Ids) (id : Int64) (ids' : Ids) (l : Link)
      → IsHistoric rows w
      → IsFresh w.ids id ids'
      → l.id ≡ id
      → l.short_code ≡ encode id
      → (repo.create l w.repo).0 ≢ err (internal collision)
  insert-ne-collision w id ids' l h is_fresh named coded e =
      let (x, m, clash) = honest.collides l w.repo e in
      let issued = h.issued x m in
      elim clash [
        | inl code ↦ is_fresh.differs x.id issued.old (
            encode_injective x.id id (IsOld-IsNonneg w.ids x.id issued.old)
              (IsOld-IsNonneg ids' id is_fresh.counted) (sym issued.coded ∙ code ∙ coded))
        | inr same ↦ is_fresh.differs x.id issued.old (same ∙ named)
      ]

  err-ne-collision :
      (why : Reason) (e : Error)
      → e ≡ invalid_url why
      → ◌≢◌ {A = Result Link} (err e) (err (internal collision))
  err-ne-collision why e invalid q = cc

  pub create-ne-taken :
      (user raw : Text) (expires : Option Time) (now later : Time) (w : World R K Ids)
      → IsHistoric rows w
      → (create s lib user raw expires now later w).0 ≢ err (internal collision)
  unfolding create
  create-ne-taken user raw expires now later w h =
      let P : Result Link × World R K Ids → Type 0 = λ p. p.0 ≢ err (internal collision) in
      continue-elim P (normalize_and_validate_url lib raw) _ w
        (λ normalized _.
          continue-elim P (id_result (next_reply w.ids).0) _ _
            (λ id got. elim (next_reply-cases w.ids h.live) [
              | inl (id', reply, is_fresh) ↦
                  let same : id' ≡ id = cc (ap id_result (sym reply) ∙ got) in
                  let l = made s lib user raw expires now later w id normalized in
                  continue-elim P (repo.create l w.repo).0 _ _ (λ _ _ q. cc)
                    (λ e failed q.
                      insert-ne-collision w id' (next_reply w.ids).1 l h is_fresh (sym same)
                        (ap encode (sym same)) (failed ∙ cc q))
                    (λ _ q. cc)
              | inr (inl no_id, _) ↦ cc (rw no_id at got)
              | inr (inr no_id, _) ↦ cc (rw no_id at got)
            ])
            (λ e failed q. id_result-ne-collision _ e failed (cc q)) (λ _ q. cc))
        (λ e failed q.
          let (why, invalid) = validate-Refuses lib raw e failed in
          err-ne-collision why e invalid q)
        (λ _ q. cc)

  inserted-IsHistoric :
      (w w' : World R K Ids) (l : Link)
      → IsRepository repo rows
      → IsHistoric rows w
      → w'.repo ≡ (repo.create l w.repo).1
      → IsKept w.ids w'.ids
      → IsIssued w'.ids l
      → IsHistoric rows w'
  inserted-IsHistoric w w' l laws h e kept new = elim (laws.create_any l w.repo) [
    | inl same ↦ kept-IsHistoric w w' h (rw e same) kept
    | inr (more, free) ↦ added-IsHistoric w w' l h (rw e more) kept new
  ]

  pub create-IsHistoric :
      (user raw : Text) (expires : Option Time) (now later : Time) (w : World R K Ids)
      → IsRepository repo rows
      → IsHistoric rows w
      → IsHistoric rows (create s lib user raw expires now later w).1
  unfolding create
  create-IsHistoric user raw expires now later w laws h =
      let P : Result Link × World R K Ids → Type 0 = λ p. IsHistoric rows p.1 in
      let (kept, counted) = drawn w.ids h.live in
      let idle = kept-IsHistoric w (record w { ids = (next_reply w.ids).1 }) h refl kept in
      continue-elim P (normalize_and_validate_url lib raw) _ w
        (λ normalized _.
          continue-elim P (id_result (next_reply w.ids).0) _ _
            (λ id got.
              let l = made s lib user raw expires now later w id normalized in
              let new : IsIssued (next_reply w.ids).1 l = record {
                old = counted id got;
                coded = refl;
              } in
              continue-elim P (repo.create l w.repo).0 _ _
                (λ _ _. inserted-IsHistoric w _ l laws h refl kept new)
                (λ _ _. inserted-IsHistoric w _ l laws h refl kept new)
                (λ _. inserted-IsHistoric w _ l laws h refl kept new))
            (λ _ _. idle) (λ _. idle))
        (λ _ _. h) (λ _. h)
