-- ===== src/Engine/Samples.antt =====
-- Data for the tests: drivers over a world that counts their calls, and an engine at rest.
use lowcode_wrapper.Base.{ℕ, suc, true, false, none, [], ◌∷◌, ok, text}
use lowcode_wrapper.Models.{null}
use lowcode_wrapper.FileStore.Samples.{plain, base}
use lowcode_wrapper.Engine.Pool.{new_pool}
use lowcode_wrapper.Engine.MetaCache.{Digest}
use lowcode_wrapper.Engine.Action.{Drivers, Services, EngineState}

abbrev pub digest : Digest
digest = record { sum = λ bytes. bytes; uuid_bytes = λ id. id ∷ []; format_time = λ t. t ∷ [] }

abbrev pub counting : Drivers ℕ
counting = record {
  connect = λ srv cred w. (ok tt, suc w);
  select = λ drv req w. (ok [], suc w);
  count = λ drv. none;
  insert = λ drv req w. (ok none, suc w);
  update = λ drv req w. (ok 1, suc w);
  upsert = λ drv req w. (ok (true, none), suc w);
  delete = λ drv req w. (ok 1, suc w);
  invoke = λ drv req w. (ok null, suc w);
}

abbrev pub services : Services ℕ
services = record {
  env = plain;
  digest = digest;
  version = λ srv cred. text "v1";
  drivers = counting;
  table_options = λ options. ok ([], text "items");
}

abbrev pub at_rest : EngineState ℕ
at_rest = record {
  store = base;
  breaker = record { failures = 0; is_open = false; until = 0; max_fails = 5; cooldown = 30 };
  pool = new_pool;
  meta = none;
  world = 0;
}
