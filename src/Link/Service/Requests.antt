-- ===== src/Link/Service/Requests.antt =====
-- Sequences of requests: codes stay unique, and the cache stays coherent with the repository.
use mathlib.Core.List.{Memᴰ}
use linkpulse_link.Base.{◌≡◌, ◌≢◌, ◌⊎◌, inl, inr, refl, sym, ◌∙◌, Option, List, [], ◌∷◌, All}
use linkpulse_link.Base.Text.{Text}
use linkpulse_link.Net.Url.{UrlLib}
use linkpulse_link.Link.{Time, Result, ok, Link}
use linkpulse_link.Link.Action.{World, continue-elim}
use linkpulse_link.Link.Ports.{Resolved, IsRepository, IsCache}
use linkpulse_link.Link.Validate.{normalize_and_validate_url}
use linkpulse_link.Link.Service.{
  Service, resolved, id_result, cache_ttl_for, create, resolve, list_by_user, Request, creating,
  resolving, listing, handle, serve,
}
use linkpulse_link.Link.Service.Creating.{made, create-stored}
use linkpulse_link.Link.Service.Resolving.{
  IsStored, IsCoherent, resolve-IsCoherent, resolve-IsStored,
}

-- No two links share a code.
abbrev pub IsDistinct : List Link → Type 0
IsDistinct [] = Unit {0}
IsDistinct (l ∷ ls) = All (λ x. x.short_code ≢ l.short_code) ls × IsDistinct ls

not-listed :
    (code : Text) (ls : List Link) (x : Link)
    → All (λ l. l.short_code ≢ code) ls
    → Memᴰ x ls
    → x.short_code ≢ code
not-listed code [] x h m = elim m [ ]
not-listed code (l ∷ ls) x (h, hs) (Memᴰ.head e) = rw e h
not-listed code (l ∷ ls) x (h, hs) (Memᴰ.tail m) = not-listed code ls x hs m

-- In such a list the code determines the link.
pub listed_unique :
    (ls : List Link) (x y : Link)
    → IsDistinct ls
    → Memᴰ x ls
    → Memᴰ y ls
    → x.short_code ≡ y.short_code
    → x ≡ y
listed_unique [] x y d m n e = elim m [ ]
listed_unique (l ∷ ls) x y (h, d) (Memᴰ.head p) (Memᴰ.head q) e = p ∙ sym q
listed_unique (l ∷ ls) x y (h, d) (Memᴰ.head p) (Memᴰ.tail n) e =
    absurd (not-listed l.short_code ls y h n (sym e ∙ rw p))
listed_unique (l ∷ ls) x y (h, d) (Memᴰ.tail m) (Memᴰ.head q) e =
    absurd (not-listed l.short_code ls x h m (e ∙ rw q))
listed_unique (l ∷ ls) x y (h, d) (Memᴰ.tail m) (Memᴰ.tail n) e = listed_unique ls x y d m n e

module _ {R K G : Type 0} (s : Service R K G) (lib : UrlLib) {rows : R → List Link}
    {Holds : K → Text → Resolved → Type 0} (repo_laws : IsRepository s.repo rows)
    (cache_laws : IsCache s.cache Holds) where
  -- What holds between two requests.
  pub record IsSound (w : World R K G) : Type 0 where
    pub distinct : IsDistinct (rows w.repo)
    pub coherent : IsCoherent rows Holds w

  -- At most one link more, under a new code; what is cached is stored.
  record IsGrown (w w' : World R K G) : Type 0 where
    grown :
        (rows w'.repo ≡ rows w.repo)
        ⊎ ((l : Link) × (rows w'.repo ≡ l ∷ rows w.repo)
            × All (λ x. x.short_code ≢ l.short_code) (rows w.repo))
    cached :
        (c : Text) (r : Resolved)
        → Holds w'.cache c r
        → Holds w.cache c r ⊎ IsStored (rows w'.repo) c r

  unchanged : (w w' : World R K G) → w'.repo ≡ w.repo → w'.cache ≡ w.cache → IsGrown w w'
  unchanged w w' er ek = record { grown = inl (rw er); cached = λ c r h. inl (rw ek at h) }

  inserted_only :
      (w w' : World R K G) (l : Link)
      → w'.repo ≡ (s.repo.create l w.repo).1
      → w'.cache ≡ w.cache
      → IsGrown w w'
  inserted_only w w' l er ek = record {
    grown = elim (repo_laws.create_any l w.repo) [
      | inl same ↦ inl (rw er same)
      | inr (more, free) ↦ inr (l, rw er more, free)
    ];
    cached = λ c r h. inl (rw ek at h);
  }

  inserted_and_warmed :
      (w w' : World R K G) (l : Link) (later : Time)
      → (s.repo.create l w.repo).0 ≡ ok tt
      → w'.repo ≡ (s.repo.create l w.repo).1
      → w'.cache ≡ (s.cache.set l.short_code (resolved l) (cache_ttl_for s l later) w.cache).1
      → IsGrown w w'
  inserted_and_warmed w w' l later done er ek =
      let (more, free) = repo_laws.create_ok l w.repo done in
      let rows' : rows w'.repo ≡ l ∷ rows w.repo = rw er more in
      record {
        grown = inr (l, rows', free);
        cached = λ c r h.
            elim (cache_laws.set_keeps l.short_code c (resolved l) r (cache_ttl_for s l later)
              w.cache (rw ek at h)) [
                | inl old ↦ inl old
                | inr (same, res) ↦ inr (l, rw rows' (Memᴰ.head refl), same, res)
              ];
      }

  create-IsGrown :
      (user raw : Text) (expires : Option Time) (now later : Time) (w : World R K G)
      → IsGrown w (create s lib user raw expires now later w).1
  unfolding create
  create-IsGrown user raw expires now later w =
      let P : Result Link × World R K G → Type 0 = λ p. IsGrown w p.1 in
      continue-elim P (normalize_and_validate_url lib raw) _ w
        (λ normalized _.
          continue-elim P (id_result (s.ids.next w.ids).0) _ _
            (λ id _.
              let l = made s lib user raw expires now later w id normalized in
              continue-elim P (s.repo.create l w.repo).0 _ _
                (λ _ done. inserted_and_warmed w _ l later done refl refl)
                (λ _ _. inserted_only w _ l refl refl) (λ _. inserted_only w _ l refl refl))
            (λ _ _. unchanged w _ refl refl) (λ _. unchanged w _ refl refl))
        (λ _ _. unchanged w _ refl refl) (λ _. unchanged w _ refl refl)

  -- A stored link stays stored.
  keeps :
      (w w' : World R K G) (l : Link) → IsGrown w w' → Memᴰ l (rows w.repo) → Memᴰ l (rows w'.repo)
  keeps w w' l g m = elim g.grown [
    | inl same ↦ rw same m
    | inr (x, more, free) ↦ rw more (Memᴰ.tail m)
  ]

  IsGrown-IsSound : (w w' : World R K G) → IsSound w → IsGrown w w' → IsSound w'
  IsGrown-IsSound w w' sound g = record {
    distinct = elim g.grown [
      | inl same ↦ rw same sound.distinct
      | inr (x, more, free) ↦ rw more (free, sound.distinct)
    ];
    coherent = λ c r h. elim (g.cached c r h) [
      | inl old ↦
          let (l, m, named, res) = sound.coherent c r old in (l, keeps w w' l g m, named, res)
      | inr new ↦ new
    ];
  }

  handle-IsGrown : (q : Request) (w : World R K G) → IsSound w → IsGrown w (handle s lib q w)
  unfolding handle
  handle-IsGrown (creating user raw expires now later) w sound =
      create-IsGrown user raw expires now later w
  handle-IsGrown (resolving code now later) w sound =
      let (same, coherent) =
        resolve-IsCoherent s repo_laws cache_laws code now later w sound.coherent in
      record { grown = inl same; cached = λ c r h. inr (coherent c r h) }
  handle-IsGrown (listing user limit offset) w sound =
      unfold list_by_user in
      record { grown = inl (repo_laws.list_keeps user _ _ w.repo); cached = λ c r h. inl h }

  -- Over a repository and a cache that keep their promises, every sequence of requests leads
  -- from a sound state to a sound state, whatever the two answer: codes stay unique, and every
  -- cached entry is the data of a stored link.
  pub serve-IsSound : (qs : List Request) (w : World R K G) → IsSound w → IsSound (serve s lib qs w)
  unfolding serve
  serve-IsSound [] w sound = sound
  serve-IsSound (q ∷ qs) w sound =
      serve-IsSound qs (handle s lib q w) (IsGrown-IsSound w _ sound (handle-IsGrown q w sound))

  serve-keeps :
      (qs : List Request) (w : World R K G) (l : Link)
      → IsSound w
      → Memᴰ l (rows w.repo)
      → Memᴰ l (rows (serve s lib qs w).repo)
  unfolding serve
  serve-keeps [] w l sound m = m
  serve-keeps (q ∷ qs) w l sound m =
      let g = handle-IsGrown q w sound in
      serve-keeps qs (handle s lib q w) l (IsGrown-IsSound w _ sound g) (keeps w _ l g m)

  -- A link that `Create` has returned stays stored over any further requests.
  pub created-listed :
      (user raw : Text) (expires : Option Time) (now later : Time) (w : World R K G) (l : Link)
      (qs : List Request)
      → IsSound w
      → (create s lib user raw expires now later w).0 ≡ ok l
      → IsSound (serve s lib qs (create s lib user raw expires now later w).1)
        × Memᴰ l (rows (serve s lib qs (create s lib user raw expires now later w).1).repo)
  created-listed user raw expires now later w l qs sound made_ok =
      let w₁ = (create s lib user raw expires now later w).1 in
      let sound₁ : IsSound w₁ =
        IsGrown-IsSound w w₁ sound (create-IsGrown user raw expires now later w) in
      let stored = (create-stored s lib user raw expires now later w l repo_laws made_ok).0 in
      (serve-IsSound qs w₁ sound₁, serve-keeps qs w₁ l sound₁ (rw stored (Memᴰ.head refl)))

  -- A code leads to the link that it was created for, over a repository and a cache that keep
  -- their promises: after a successful `Create` in a sound state and any further requests,
  -- whatever `Resolve` answers for its code is its ID and its URL.
  pub resolve-create :
      (user raw : Text) (expires : Option Time) (now later : Time) (w : World R K G) (l : Link)
      (qs : List Request) (t t' : Time) (res : Resolved)
      → IsSound w
      → (create s lib user raw expires now later w).0 ≡ ok l
      → (resolve s l.short_code t t'
          (serve s lib qs (create s lib user raw expires now later w).1)).0
        ≡ ok res
      → res ≡ resolved l
  resolve-create user raw expires now later w l qs t t' res sound made_ok found =
      let w₂ = serve s lib qs (create s lib user raw expires now later w).1 in
      let (sound₂, listed) = created-listed user raw expires now later w l qs sound made_ok in
      let (x, m, named, same) =
        resolve-IsStored s repo_laws cache_laws l.short_code t t' w₂ res sound₂.coherent found in
      rw (← same, listed_unique (rows w₂.repo) x l sound₂.distinct m listed named)
