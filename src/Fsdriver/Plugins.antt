-- ===== src/Fsdriver/Plugins.antt =====
-- internal/fsdriver/plugin.go: the storage plug-ins. What the local one does of the disk is the parameter
-- `mkdir_all`, os.MkdirAll with the text of its error.
pub mod Starting
use mathlib.Core.List.{map, reverse}
use cloud_file_server.Base.{
  ℕ, ◌≡◌, refl, ap, Bool, true, false, List, [], ◌∷◌, ◌++◌, Option, none, some, Result, ok, err,
  arith, if◌then◌else◌, ◌||◌, Result-cases, Option-cases, inl, inr,
}
use cloud_file_server.Text.{Text, ascii, text_beq, slash, is_slash}
use cloud_file_server.Text.Segments.{split, join, dot, dotdot, clean_rooted}
use cloud_file_server.Audit.Event.{Event, zero_event, str, Value}
use cloud_file_server.Base.Dict.{Dict}
use cloud_file_server.Config.{Parsers, Config}
use cloud_file_server.Cos.{Err, Cloud}
use cloud_file_server.Cos.Chain.{Chain, Notice, new_chain_from_env, chain_get, has_static}
use cloud_file_server.Cos.Client.{Client, new_client_with_chain}
use cloud_file_server.Fsdriver.ObjectFs.{new_cos}

abbrev plugin_cos : Text
plugin_cos = ascii "cos.objectstorage.plugin"

abbrev plugin_local : Text
plugin_local = ascii "local.objectstorage.plugin"

-- The fields of COSPlugin that NewObjectStorage sets.
pub record CosPlugin (Float : Type 0) : Type 0 where
  pub bucket : Text
  pub region : Text
  pub static_secret_id : Text
  pub static_secret_key : Text
  pub static_session_token : Text
  pub sts_refresh_ratio : Float

pub data Plugin (Float : Type 0) : Type 0 where
  cos : CosPlugin Float → Plugin Float
  local : (root : Text) → Plugin Float

-- The error is an unknown name, which its text quotes.
unfoldable pub new_object_storage : (P : Parsers) → Text → Config P → Result Text (Plugin P.Float)
new_object_storage P id cfg =
    if text_beq id plugin_cos
    then ok (
        cos (record {
          bucket = cfg.cos_bucket;
          region = cfg.cos_region;
          static_secret_id = cfg.cos_static_secret_id;
          static_secret_key = cfg.cos_static_secret_key;
          static_session_token = cfg.cos_static_session_token;
          sts_refresh_ratio = cfg.sts_refresh_ratio;
        }))
    else if text_beq id plugin_local
    then ok (local cfg.storage_local_root)
    else err id

unfoldable pub backend_location : {F : Type 0} → Plugin F → Text
backend_location (cos p) =
    ascii "https://" ++ p.bucket ++ ascii ".cos." ++ p.region ++ ascii ".myqcloud.com"
backend_location (local root) = ascii "local://" ++ root

module _ {F : Type 0} (p : CosPlugin F) where
  abbrev refresh_detail : Option Err → Dict Text Value
  refresh_detail none = (ascii "bucket", str p.bucket) ∷ (ascii "region", str p.region) ∷ []
  refresh_detail (some e) =
      (ascii "bucket", str p.bucket)
      ∷ (ascii "region", str p.region)
      ∷ (ascii "err", str e.message)
      ∷ []

  -- The event of the hook OnRefresh.
  unfoldable pub refresh_event : Notice → Event
  refresh_event n = record zero_event {
    action = ascii "CRED_REFRESH";
    source = n.source;
    success = n.success;
    detail = refresh_detail n.error;
  }

  module _ (C : Cloud) where
    -- What Init leaves: the client, or the text of the error; the events; and the store.
    pub record Started : Type 0 where
      pub client : Result Text (Client C)
      pub events : List Event
      pub cloud : C.State

    -- The validated chain is handed to NewClientWithChain, whose own refresh calls the hook again.
    pub connect : Chain → List Notice → C.State → Started
    unfolding new_client_with_chain
    connect chain notices s =
        let c : Client C = new_client_with_chain C chain s in
        record { client = ok c; events = map refresh_event (notices ++ c.notices); cloud = c.cloud }

    -- `Init` of the COS plug-in, for a margin that the refresh ratio stands for, HasTKEPodIdentity, and
    -- the error of the client of the token service.
    pub init_cos : ℕ → Bool → Option Err → C.State → Started
    unfolding new_chain_from_env chain_get connect refresh_event
    init_cos margin pod_identity sts_error s =
        elim (new_chain_from_env p.static_secret_id p.static_secret_key p.static_session_token
          margin pod_identity sts_error) [
            | err e ↦ record { client = err e.message; events = []; cloud = s }
            | ok chain ↦
                let ((got, chain1, notices), s1) = chain_get C chain s in
                elim got [
                  | err e ↦ record {
                    client =
                        err (ascii "cos: credential validation failed at startup: " ++ e.message);
                    events = map refresh_event notices;
                    cloud = s1;
                  }
                  | ok _ ↦ connect chain1 notices s1
                ]
          ]

    unfoldable mount_cos : Text → Client C → Text × Client C
    mount_cos root_folder c = new_cos C root_folder c

-- `path.Clean`, also of a path that is not rooted: there, a `..` that has nothing to take back stays.
abbrev clean_up : List Text → List Text
clean_up [] = dotdot ∷ []
clean_up (last ∷ kept) = if text_beq last dotdot then dotdot ∷ last ∷ kept else kept

clean_relative : List Text → List Text → List Text
unfolding dot dotdot
clean_relative kept [] = kept
clean_relative kept (s ∷ segments) =
    clean_relative
      (if text_beq s [] || text_beq s dot
        then kept
        else if text_beq s dotdot
        then clean_up kept
        else s ∷ kept)
      segments

pub clean : Text → Text
unfolding clean_rooted clean_relative dot split join
clean [] = dot
clean (c ∷ p) =
    let kept = clean_relative [] (split (c ∷ p)) in
    if is_slash c
    then clean_rooted p
    else elim kept [ [] ↦ dot | s ∷ segments ↦ join (reverse (s ∷ segments)) ]

-- `filepath.Join` of two elements, of which the empty ones in front are left out.
join_path : Text → Text → Text
unfolding clean
join_path [] [] = []
join_path [] (c ∷ folder) = clean (c ∷ folder)
join_path (c ∷ root) folder = clean ((c ∷ root) ++ (slash ∷ folder))

module _ {S : Type 0} (mkdir_all : Text → S → Option Text × S) where
  unfoldable init_local : Text → S → Option Text × S
  init_local root s = mkdir_all root s

  -- The directory of the driver, or the error.
  unfoldable mount_local : Text → Text → S → Result Text Text × S
  unfolding join_path
  mount_local root folder s =
      let dir = join_path root folder in
      let (failed, s1) = mkdir_all dir s in
      elim failed [ some message ↦ (err message, s1) | none ↦ (ok dir, s1) ]
