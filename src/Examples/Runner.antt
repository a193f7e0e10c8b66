-- ===== src/Examples/Runner.antt =====
-- The runner's fixtures and the registry of packs at concrete data.
use clausa_lens.Prelude.{true, some, none, [], ◌∷◌, String, List, Option, pos, ◌≡◌, refl}
use clausa_lens.Packs.Registry.{Factory, resolve, resolved}
use clausa_lens.Packs.Registered.{register_all, last_factory, resolve-register_all}
use clausa_lens.Packs.Dev.{dev_pack}
use clausa_lens.Replay.Runner.{Services}
use clausa_lens.Replay.Loads.{Loaded, valid_capsule-Loaded}
use clausa_lens.Examples.Capsules.{capsule, capsule_valid}

-- Services that a checkout has left with two effects.
abbrev dirty : Services
dirty = record {
  ledger = record {
    dedup_enabled = true;
    effects = "checkout-1-1" ∷ "checkout-1-2" ∷ [];
    first_effect_by_checkout = [];
  };
  payment = record { latency_ms = pos 20; attempts = 2 };
}

valid_capsule-Loaded_example : (t : Services) × Loaded capsule (pos 180) dirty t
valid_capsule-Loaded_example = valid_capsule-Loaded capsule (pos 180) dirty capsule_valid refl

abbrev registrations : List (String × Option Factory)
registrations =
    ("dev", some none) ∷ ("dev", some (some dev_pack)) ∷ ("dev", none) ∷ ("", some none) ∷ []

registers : last_factory "dev" registrations ≡ some (some dev_pack)
unfolding last_factory
registers = refl

resolve-register_all_example :
    resolve "dev" (register_all registrations []) ≡ resolved (last_factory "dev" registrations)
resolve-register_all_example = resolve-register_all "dev" registrations
