-- ===== src/Files/Storage.antt =====
-- integrations/storage/storage.service.ts as it is built and as it starts. The two bucket commands
-- of the S3 client are arguments; the object commands are in Files.
use ai_search_api.Base.{◌≡◌, refl, Bool, true, false, Option, none, some, List, [], ◌∷◌, any}
use ai_search_api.Base.Result.{Thrown, Result, ok, err}
use ai_search_api.Base.Text.{Text, text_eq}
use ai_search_api.Core.Config.{Env, production}

-- A setting that is set to a text that is not empty.
abbrev pub setting : Option Text → Option Text
setting none = none
setting (some []) = none
setting (some (c ∷ s)) = some (c ∷ s)

pub record ClientConfig : Type 0 where
  pub endpoint : Text
  pub region : Text
  pub access_key_id : Text
  pub secret_access_key : Text
  pub force_path_style : Bool

pub record Storage : Type 0 where
  pub client : Option ClientConfig
  pub bucket : Option Text
  pub is_production : Bool

abbrev client_of : Env → Option Text → Option Text → Option Text → Option Text → Option ClientConfig
client_of env (some endpoint) (some key) (some secret) (some bucket) = some (record {
  endpoint = endpoint;
  region = env.storage_region;
  access_key_id = key;
  secret_access_key = secret;
  force_path_style = env.storage_force_path_style;
})
client_of env _ _ _ _ = none

-- The constructor
unfoldable pub new_storage : Env → Storage
new_storage env = record {
  client =
      client_of env (setting env.storage_endpoint) (setting env.storage_access_key_id)
        (setting env.storage_secret_access_key) (setting env.storage_bucket);
  bucket = env.storage_bucket;
  is_production = text_eq env.node_env production;
}

-- The commands that were sent, in order.
pub data Command : Type 0 where
  head_bucket create_bucket : Text → Command

-- What each command throws, if anything.
module _ (throws : Command → Option Thrown) where
  abbrev pub send : Command → Result (Unit {0})
  send c = elim (throws c) [ none ↦ ok tt | some e ↦ err e ]

  unfoldable pub ensure_bucket : Text → Result (Unit {0}) × List Command
  ensure_bucket bucket = elim (send (head_bucket bucket)) [
    | ok _ ↦ (ok tt, head_bucket bucket ∷ [])
    | err _ ↦ (send (create_bucket bucket), head_bucket bucket ∷ create_bucket bucket ∷ [])
  ]

  abbrev pub provision : Bool → Text → Result (Unit {0}) × List Command
  provision true bucket = (send (head_bucket bucket), head_bucket bucket ∷ [])
  provision false bucket = ensure_bucket bucket

  abbrev start_with : Bool → Option ClientConfig → Option Text → Result (Unit {0}) × List Command
  start_with is_production (some client) (some bucket) = provision is_production bucket
  start_with is_production _ _ = (ok tt, [])

  -- `onModuleInit`
  unfoldable pub on_module_init : Storage → Result (Unit {0}) × List Command
  unfolding ensure_bucket
  on_module_init storage = start_with storage.is_production storage.client (setting storage.bucket)

abbrev pub creates : Command → Bool
creates (create_bucket bucket) = true
creates (head_bucket bucket) = false

start_with-creates :
    (throws : Command → Option Thrown) (client : Option ClientConfig) (bucket : Option Text)
    → any creates (start_with throws true client bucket).1 ≡ false
start_with-creates throws (some client) (some bucket) = refl
start_with-creates throws (some client) none = refl
start_with-creates throws none bucket = refl

-- A process that starts in production creates no bucket, whatever the object store answers.
pub on_module_init-production :
    (throws : Command → Option Thrown) (env : Env)
    → text_eq env.node_env production ≡ true
    → any creates (on_module_init throws (new_storage env)).1 ≡ false
unfolding on_module_init new_storage
on_module_init-production throws env h =
    rw h (start_with-creates throws (new_storage env).client (setting env.storage_bucket))
