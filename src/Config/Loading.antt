-- ===== src/Config/Loading.antt =====
-- When `Load` returns a configuration, and what the rest of the program gets from it.
use mathlib.Core.Path.{subst}
use linkpulse_link.Base.{
  ◌≡◌, ◌≢◌, ◌↔◌, ◌⊎◌, inl, inr, refl, ap, sym, ◌∙◌, false, Option, none, some, List, [], ◌∷◌, ◌++◌,
  arith,
}
use linkpulse_link.Base.Text.{Text, codes}
use linkpulse_link.Base.Int.{ℤ, pos, negsuc, pos_part, ◌≤ℤ◌}
use linkpulse_link.Net.Strings.{is_empty}
use linkpulse_link.Strconv.{atoi}
use linkpulse_link.Link.{Duration}
use linkpulse_link.Snowflake.{new}
use linkpulse_link.Snowflake.Early.{new-eq-none_iff}
use linkpulse_link.Config.{
  Config, Problem, not_a_number, not_a_duration, Env, parsed_or, getenv, get_env_int,
  get_env_duration, loaded, candidate, checks, problems, outcome, load,
}

-- A variable that is not set, or that has a value that can be read.
abbrev pub IsReadable : {A : Type 0} → (Text → Option A) → Env → Text → Type 0
IsReadable {A} f env key =
    (env key ≡ none) ⊎ ((v : Text) × (a : A) × (env key ≡ some v) × (f v ≡ some a))

module _ {A : Type 0} (f : Text → Option A) (def : A) (mk : Text → Problem) where
  abbrev read : Option Text → A × List Problem
  read none = (def, [])
  read (some v) = parsed_or def (mk v) (f v)

  parsed_fine :
      (v : Text) (p : Problem) (o : Option A)
      → f v ≡ o
      → ((parsed_or def p o).1 ≡ [])
        ↔ ((some v ≡ none) ⊎ ((x : Text) × (a : A) × (some v ≡ some x) × (f x ≡ some a)))
  parsed_fine v p none e = (
    λ h. cc,
    λ h. elim h [
      | inl set ↦ cc
      | inr (x, a, same, good) ↦
          let same_text : v ≡ x = cc same in cc (sym e ∙ ap f same_text ∙ good)
    ],
  )
  parsed_fine v p (some a) e = (λ h. inr (v, a, refl, e), λ h. refl)

  read_fine :
      (o : Option Text)
      → ((read o).1 ≡ []) ↔ ((o ≡ none) ⊎ ((v : Text) × (a : A) × (o ≡ some v) × (f v ≡ some a)))
  read_fine none = (λ h. inl refl, λ h. refl)
  read_fine (some v) = parsed_fine v (mk v) (f v) refl

get_env_int-fine :
    (env : Env) (key : Text) (def : ℤ)
    → ((get_env_int env key def).1 ≡ []) ↔ IsReadable atoi env key
unfolding get_env_int
get_env_int-fine env key def = read_fine atoi def (not_a_number key) (env key)

get_env_duration-fine :
    (parse : Text → Option Duration) (env : Env) (key : Text) (def : Duration)
    → ((get_env_duration parse env key def).1 ≡ []) ↔ IsReadable parse env key
unfolding get_env_duration
get_env_duration-fine parse env key def = read_fine parse def (not_a_duration key) (env key)

append-eq-nil : {A : Type 0} (xs ys : List A) → (xs ++ ys ≡ []) ↔ ((xs ≡ []) × (ys ≡ []))
append-eq-nil [] ys = (λ h. (refl, h), λ h. h.1)
append-eq-nil (x ∷ xs) ys = (λ h. cc, λ h. cc)

is_empty_iff : (s : Text) → (is_empty s ≡ false) ↔ (s ≢ [])
is_empty_iff [] = (λ h. cc, λ h. absurd (h refl))
is_empty_iff (c ∷ s) = (λ h. λ e. cc, λ h. refl)

new-bounded : (n : ℤ) → pos 0 ≤ℤ n → n ≤ℤ pos 1023 → new (pos_part n) ≢ none
new-bounded (pos n) low high refusal = omega (arith, (new-eq-none_iff n (omega arith)).0 refusal)
new-bounded (negsuc n) low high refusal = absurd (omega arith)

module _ (parse : Text → Option Duration) (env : Env) where
  -- The configuration that is asked for can be used.
  pub record IsFine : Type 0 where
    pub timeout_readable : IsReadable parse env (codes "SHUTDOWN_TIMEOUT")
    pub redis_readable : IsReadable atoi env (codes "REDIS_DB")
    pub worker_readable : IsReadable atoi env (codes "WORKER_ID")
    pub has_dsn : getenv env (codes "POSTGRES_DSN") ≢ []
    pub low : pos 0 ≤ℤ (candidate parse env).worker_id
    pub high : (candidate parse env).worker_id ≤ℤ pos 1023

  checks-fine :
      (cfg : Config)
      → (checks parse env cfg ≡ []) ↔ (
          (is_empty cfg.postgres_dsn ≡ false)
          × (pos 0 ≤ℤ cfg.worker_id)
          × (cfg.worker_id ≤ℤ pos 1023))
  checks-fine cfg = ground arith

  outcome-eq-loaded :
      (ps : List Problem) (cfg : Config)
      → outcome parse env ps ≡ loaded cfg
      → (ps ≡ []) × (candidate parse env ≡ cfg)
  outcome-eq-loaded [] cfg h = (refl, cc)
  outcome-eq-loaded (p ∷ ps) cfg h = cc

  fine-of_problems : problems parse env ≡ [] → IsFine
  unfolding problems
  fine-of_problems h =
      let (t, h₁) = (append-eq-nil _ _).0 h in
      let (r, h₂) = (append-eq-nil _ _).0 h₁ in
      let (w, h₃) = (append-eq-nil _ _).0 h₂ in
      let (dsn, low, high) = (checks-fine (candidate parse env)).0 h₃ in
      record {
        timeout_readable = (get_env_duration-fine parse env _ _).0 t;
        redis_readable = (get_env_int-fine env _ _).0 r;
        worker_readable = (get_env_int-fine env _ _).0 w;
        has_dsn = unfold candidate in (is_empty_iff _).0 dsn;
        low = low;
        high = high;
      }

  problems-of_fine : IsFine → problems parse env ≡ []
  unfolding problems
  problems-of_fine f = (append-eq-nil _ _).1 (
    (get_env_duration-fine parse env _ _).1 f.timeout_readable,
    (append-eq-nil _ _).1 (
      (get_env_int-fine env _ _).1 f.redis_readable,
      (append-eq-nil _ _).1 (
        (get_env_int-fine env _ _).1 f.worker_readable,
        (checks-fine (candidate parse env)).1
            (unfold candidate in (is_empty_iff _).1 f.has_dsn, f.low, f.high),
      ),
    ),
  )

  -- A configuration is loaded exactly if the three numbers can be read where they are set, the DSN
  -- is there, and the worker ID lies in 0..1023.
  pub load_iff : (load parse env ≡ loaded (candidate parse env)) ↔ IsFine
  unfolding load
  load_iff = (
    λ h. fine-of_problems (outcome-eq-loaded _ _ h).0,
    λ f. ap (outcome parse env) (problems-of_fine f),
  )

  -- With a loaded configuration the generator of IDs can be made: `New` does not refuse its
  -- worker.
  pub load-new : (cfg : Config) → load parse env ≡ loaded cfg → new (pos_part cfg.worker_id) ≢ none
  unfolding load
  load-new cfg h =
      let (clean, same) = outcome-eq-loaded _ cfg h in
      let f = fine-of_problems clean in
      subst (λ c. new (pos_part c.worker_id) ≢ none) same
        (new-bounded (candidate parse env).worker_id f.low f.high)
