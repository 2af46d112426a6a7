-- ===== src/Link/Service/Collisions/Tests.antt =====
-- Two workers on one table.
use linkpulse_link.Base.{◌+◌, ◌≡◌, ◌≢◌, refl, none, some, List, [], ◌∷◌, arith}
use linkpulse_link.Base.Text.{codes}
use linkpulse_link.Base.Int.{pos}
use linkpulse_link.Shortcode.{encode}
use linkpulse_link.Link.{collision, internal, err, Link}
use linkpulse_link.Link.Action.{World}
use linkpulse_link.Link.Service.{create, creating, handle}
use linkpulse_link.Link.Service.Sample.{plain, service, start, raw_url, repo_laws}
use linkpulse_link.Link.Service.Collisions.{IsHonest, IsHistoric}
use linkpulse_link.Link.Service.Collisions.Steps.{
  IsForeign, Steps, stored_elsewhere, request, here, create-ne-collision,
}
use linkpulse_link.Repository.{postgres, to_row}
use linkpulse_link.Repository.Memory.{Db, memory, memory-IsTable, memory-IsStrict}
use linkpulse_link.Repository.Laws.{stored, postgres-collides}
use linkpulse_link.Cache.Memory.{Store}
use linkpulse_link.Snowflake.{epoch}
use linkpulse_link.Snowflake.Ids.{Ids}

abbrev links : Db → List Link
links = stored memory memory-IsTable

strict : IsHonest service.repo links
strict = record { collides = postgres-collides memory memory-IsStrict }

start-IsHistoric : IsHistoric links start
start-IsHistoric = record {
  live = record {
    valid = record { worker = omega arith; last = omega arith; counter = omega arith };
    dated = ((omega arith, omega arith), ((omega arith, omega arith), tt));
  };
  issued = λ x m. elim m [ ];
}

-- A link that worker 2 stores in the first millisecond.
abbrev foreign : Link
foreign = record {
  id = 4_202_496;
  short_code = encode 4_202_496;
  original_url = codes "https://example.org";
  user_id = codes "v";
  created_at = pos 4;
  expires_at = none;
}

foreign-IsForeign : IsForeign start.ids foreign
foreign-IsForeign = record {
  ms = epoch + 1;
  worker = 2;
  sequence = 0;
  fields = refl;
  dated = (omega arith, omega arith);
  small = omega arith;
  counter = omega arith;
  elsewhere = λ e. omega (arith, e);
  coded = refl;
}

abbrev joined : World Db Store Ids
joined = record start { repo = record { table = to_row foreign ∷ []; faults = [] } }

abbrev after_one : World Db Store Ids
after_one =
    handle service plain (creating (codes "u") raw_url (some (pos 300)) (pos 5) (pos 6)) joined

stored_too : links joined.repo ≡ foreign ∷ links start.repo
unfolding to_row linkpulse_link.Repository.to_domain
stored_too = refl

steps :
    Steps service.repo service.cache service.base_url service.cache_ttl links plain start after_one
steps =
    stored_elsewhere joined.repo joined.cache foreign stored_too foreign-IsForeign
      (request (creating (codes "u") raw_url (some (pos 300)) (pos 5) (pos 6)) here)

create-ne-collision_example :
    (create service plain (codes "u") raw_url none (pos 7) (pos 8) after_one).0
    ≢ err (internal collision)
create-ne-collision_example =
    create-ne-collision service.repo service.cache service.base_url service.cache_ttl links plain
      repo_laws strict start after_one (codes "u") raw_url none (pos 7) (pos 8) start-IsHistoric
      steps
