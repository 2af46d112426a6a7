-- ===== src/Link/Service/Collisions/Steps.antt =====
-- Instances side by side on one database: requests, clicks, and links that other workers store.
use linkpulse_link.Base.{◌≡◌, ◌≢◌, inl, inr, refl, Option, List, ◌∷◌, Bool-cases, ◌<◌}
use linkpulse_link.Base.Text.{Text}
use linkpulse_link.Base.Word.{Int64}
use linkpulse_link.Shortcode.{encode}
use linkpulse_link.Net.Url.{UrlLib}
use linkpulse_link.Link.{Time, Duration, collision, internal, err, Link, is_expired}
use linkpulse_link.Link.Action.{World, continue-elim}
use linkpulse_link.Link.Ports.{Repository, Cache, CacheReply, hit, miss, failed, IsRepository}
use linkpulse_link.Link.Service.{
  Service, create, resolve_stored, after_cache, resolve, list_by_user, Request, creating, resolving,
  listing, handle,
}
use linkpulse_link.Link.Service.Collisions.{
  IsHonest, IsHistoric, IsIssued, on_snowflake, create-ne-taken, create-IsHistoric, kept-IsHistoric,
  added-IsHistoric, drawn,
}
use linkpulse_link.Snowflake.{InRange}
use linkpulse_link.Snowflake.Layout.{layout}
use linkpulse_link.Snowflake.Ids.{Ids, next_reply}
use linkpulse_link.Snowflake.History.{IsLive, IsKept}

-- A link of another worker, under the code of its ID.
pub record IsForeign (ids : Ids) (x : Link) : Type 0 where
  pub ms : Int64
  pub worker : Int64
  pub sequence : Int64
  pub fields : x.id ≡ layout ms worker sequence
  pub dated : InRange ms
  pub small : worker < 1024
  pub counter : sequence < 4096
  pub elsewhere : worker ≢ ids.0.worker_id
  pub coded : x.short_code ≡ encode x.id

module _ {R K : Type 0} (repo : Repository R) (cache : Cache K) (base_url : Text) (ttl : Duration)
    (rows : R → List Link) (lib : UrlLib) where
  abbrev s : Service R K Ids
  s = on_snowflake repo cache base_url ttl

  -- What may happen from one state to another: a request to this instance, a click that draws an ID,
  -- and a link that another instance stores, with whatever that does to the cache.
  pub data Steps : World R K Ids → World R K Ids → Type 0 where
    here : {w : World R K Ids} → Steps w w
    request : {w w' : World R K Ids} (q : Request) → Steps (handle s lib q w) w' → Steps w w'
    click : {w w' : World R K Ids} → Steps (record w { ids = (next_reply w.ids).1 }) w' → Steps w w'
    stored_elsewhere :
        {w w' : World R K Ids} (repo' : R) (cache' : K) (x : Link)
        → rows repo' ≡ x ∷ rows w.repo
        → IsForeign w.ids x
        → Steps (record w { repo = repo'; cache = cache' }) w'
        → Steps w w'

  module _ (laws : IsRepository repo rows) (honest : IsHonest repo rows) where
    unmoved : (ids : Ids) → IsLive ids → IsKept ids ids
    unmoved ids live = record { stays = λ old h. h; live = live }

    -- Reading stores no link and draws no ID.
    record IsReadOnly (w w' : World R K Ids) : Type 0 where
      rows_same : rows w'.repo ≡ rows w.repo
      ids_same : w'.ids ≡ w.ids

    resolve_stored-IsReadOnly :
        (code : Text) (now later : Time) (w : World R K Ids)
        → IsReadOnly w (resolve_stored s code now later w).1
    unfolding resolve_stored
    resolve_stored-IsReadOnly code now later w =
        let same = laws.get_keeps code w.repo in
        continue-elim (λ p. IsReadOnly w p.1) (repo.get_by_short_code code w.repo).0 _ _
          (λ l found. elim (Bool-cases (is_expired l now)) [
            | inl late ↦ rw late (record { rows_same = same; ids_same = refl })
            | inr valid ↦ rw valid (record { rows_same = same; ids_same = refl })
          ])
          (λ _ _. record { rows_same = same; ids_same = refl })
          (λ _. record { rows_same = same; ids_same = refl })

    after_cache-IsReadOnly :
        (code : Text) (now later : Time) (w : World R K Ids) (reply : CacheReply)
        → IsReadOnly w (after_cache s code now later reply w).1
    after_cache-IsReadOnly code now later w (hit res) = record { rows_same = refl; ids_same = refl }
    after_cache-IsReadOnly code now later w miss = resolve_stored-IsReadOnly code now later w
    after_cache-IsReadOnly code now later w failed =
        let r = resolve_stored-IsReadOnly code now later _ in
        record { rows_same = r.rows_same; ids_same = r.ids_same }

    handle-IsHistoric :
        (q : Request) (w : World R K Ids) → IsHistoric rows w → IsHistoric rows (handle s lib q w)
    unfolding handle resolve list_by_user
    handle-IsHistoric (creating user raw expires now later) w h =
        create-IsHistoric repo cache base_url ttl honest lib user raw expires now later w laws h
    handle-IsHistoric (resolving code now later) w h =
        let r =
          after_cache-IsReadOnly code now later (record w { cache = (s.cache.get code w.cache).1 })
            (s.cache.get code w.cache).0 in
        kept-IsHistoric w _ h r.rows_same (rw r.ids_same (unmoved w.ids h.live))
    handle-IsHistoric (listing user limit offset) w h =
        kept-IsHistoric w _ h (laws.list_keeps user _ _ w.repo) (unmoved w.ids h.live)

    foreign-IsOld : (ids : Ids) (x : Link) → IsForeign ids x → IsIssued ids x
    foreign-IsOld ids x f = record {
      old = record {
        ms = f.ms;
        worker = f.worker;
        sequence = f.sequence;
        fields = f.fields;
        dated = f.dated;
        small = f.small;
        counter = f.counter;
        gone = inl f.elsewhere;
      };
      coded = f.coded;
    }

    Steps-IsHistoric : (w w' : World R K Ids) → Steps w w' → IsHistoric rows w → IsHistoric rows w'
    Steps-IsHistoric w w' here h = h
    Steps-IsHistoric w w' (request q steps) h =
        Steps-IsHistoric (handle s lib q w) w' steps (handle-IsHistoric q w h)
    Steps-IsHistoric w w' (click steps) h =
        Steps-IsHistoric _ w' steps (kept-IsHistoric w _ h refl (drawn w.ids h.live).0)
    Steps-IsHistoric w w' (stored_elsewhere repo' cache' x more foreign steps) h =
        Steps-IsHistoric _ w' steps
          (added-IsHistoric w _ x h more (unmoved w.ids h.live) (foreign-IsOld w.ids x foreign))

    -- Codes never collide. Let every stored link have an ID that exists already under its code, from
    -- another worker, from this generator, or from this worker before a restart at a time that
    -- all readings of the clock are past; and let the readings lie within 2 ^ 41 milliseconds from the
    -- epoch. Then, whatever requests, clicks and insertions of instances with other worker
    -- numbers come first, `Create` does not report a collision, over a repository that keeps its
    -- promises and reports one only where the code or the ID is taken.
    pub create-ne-collision :
        (w w' : World R K Ids) (user raw : Text) (expires : Option Time) (now later : Time)
        → IsHistoric rows w
        → Steps w w'
        → (create s lib user raw expires now later w').0 ≢ err (internal collision)
    create-ne-collision w w' user raw expires now later h steps =
        create-ne-taken repo cache base_url ttl honest lib user raw expires now later w'
          (Steps-IsHistoric w w' steps h)
