-- ===== src/Idempotency/Sharing.antt =====
-- idempotency.go and result.go: the objects behind the pointers of a SendResult, and who can write to
-- them. A result is an object that points to its metadata map and to its error; a ProviderError is an
-- object whose Err may point, through wrapping errors, to another one.
pub mod Copies
pub mod Frozen
use provider_kit.Base.{
  [], ℕ, suc, Str, Bool, true, false, ◌||◌, Option, none, some, ◌≡◌, ◌≢◌, nat_eq, if◌then◌else◌,
}
use provider_kit.GoMap.{GoMap, get, put, delete, put_all}
use provider_kit.Channel.{Channel}
use provider_kit.Errors.{Error}
use provider_kit.Errors.Reason.{ErrorReason}
use provider_kit.SendResult.{Time, copy_map}

abbrev pub Ref : Type 0
Ref = ℕ

-- An `error` as the field Err holds it: a value that nobody can change, a pointer to a ProviderError, or
-- fmt.Errorf("text: %w", err).
pub data Chain : Type 0 where
  value : Error → Chain
  pointer : Ref → Chain
  wrapping : Str → Chain → Chain

-- The struct ProviderError.
pub record ErrorObject : Type 0 where
  pub reason : ErrorReason
  pub message : Str
  pub provider_name : Str
  pub channel : Channel
  pub err : Chain

-- The struct SendResult, with its two pointers.
pub record ResultObject : Type 0 where
  pub ok : Bool
  pub message_id : Str
  pub provider : Str
  pub channel : Channel
  pub timestamp : Time
  pub metadata : Option Ref
  pub error : Option Ref

pub data Object : Type 0 where
  result_object : ResultObject → Object
  map_object : GoMap Str → Object
  error_object : ErrorObject → Object

-- The objects, and the first reference that is not in use.
pub record Memory : Type 0 where
  pub objects : Ref → Option Object
  pub next : Ref

abbrev pub write : Ref → Object → Memory → Memory
write r o m = record m { objects = λ j. if nat_eq r j then some o else m.objects j }

abbrev pub alloc : Object → Memory → Memory
alloc o m = record (write m.next o m) { next = suc m.next }

abbrev pub map_at : Option Object → Option (GoMap Str)
map_at (some (map_object g)) = some g
map_at _ = none

abbrev pub error_at : Option Object → Option ErrorObject
error_at (some (error_object e)) = some e
error_at _ = none

abbrev pub load_map : Memory → Option Ref → Option (GoMap Str)
load_map m none = none
load_map m (some r) = map_at (m.objects r)

abbrev pub load_error : Memory → Option Ref → Option ErrorObject
load_error m none = none
load_error m (some r) = error_at (m.objects r)

-- What a SendResult shows: its fields, the contents of its map, and the struct of its error. Of what
-- stands behind Err it shows the pointer alone.
pub record View : Type 0 where
  pub ok : Bool
  pub message_id : Str
  pub provider : Str
  pub channel : Channel
  pub timestamp : Time
  pub metadata : Option (GoMap Str)
  pub error : Option ErrorObject

abbrev pub load : Memory → ResultObject → View
load m f = record {
  ok = f.ok;
  message_id = f.message_id;
  provider = f.provider;
  channel = f.channel;
  timestamp = f.timestamp;
  metadata = load_map m f.metadata;
  error = load_error m f.error;
}

-- The view of a clone: the map is copied entry by entry.
abbrev pub copied : View → View
copied v = record v { metadata = copy_map v.metadata }

-- if src.Metadata != nil { out.Metadata = make(…); … }
unfoldable pub copy_metadata : Option (GoMap Str) → Memory → Option Ref × Memory
copy_metadata none m = (none, m)
copy_metadata (some g) m = (some m.next, alloc (map_object (put_all g [])) m)

-- if src.Error != nil { errCopy := *src.Error; out.Error = &errCopy }; the copy has the same Err.
unfoldable pub copy_error : Option ErrorObject → Memory → Option Ref × Memory
copy_error none m = (none, m)
copy_error (some e) m = (some m.next, alloc (error_object e) m)

-- cloneSendResult of the struct `src`: the new struct, where it is, and the memory afterwards.
unfoldable pub clone_object : ResultObject → Memory → ResultObject × Ref × Memory
unfolding copy_metadata copy_error
clone_object src m =
    let (metadata, m₁) = copy_metadata (load_map m src.metadata) m in
    let (error, m₂) = copy_error (load_error m src.error) m₁ in
    let out : ResultObject = record src { metadata = metadata; error = error } in
    (out, m₂.next, alloc (result_object out) m₂)

-- The memory, the results that the store has recorded, and the references that callers can reach.
pub record Sharing : Type 0 where
  pub memory : Memory
  pub recorded : GoMap Ref
  pub held : Ref → Bool

abbrev pub add : Ref → (Ref → Bool) → Ref → Bool
add r held j = nat_eq r j || held j

abbrev pub add_option : Option Ref → (Ref → Bool) → Ref → Bool
add_option none held = held
add_option (some r) held = add r held

-- A result that is given away: with it go the objects that it points to. What stands behind the Err of
-- its error could be reached already when the result was recorded, since a clone has the same Err.
abbrev pub give : Ref → ResultObject → (Ref → Bool) → Ref → Bool
give r f held = add r (add_option f.metadata (add_option f.error held))

abbrev pub IsHeld : (Ref → Bool) → Option Ref → Type 0
IsHeld held none = Unit
IsHeld held (some r) = held r ≡ true

abbrev pub IsHeldChain : (Ref → Bool) → Chain → Type 0
IsHeldChain held (value e) = Unit
IsHeldChain held (pointer r) = held r ≡ true
IsHeldChain held (wrapping text err) = IsHeldChain held err

-- What an object points to can be reached already.
abbrev pub IsReachable : (Ref → Bool) → Object → Type 0
IsReachable held (result_object f) = IsHeld held f.metadata × IsHeld held f.error
IsReachable held (map_object g) = Unit
IsReachable held (error_object e) = IsHeldChain held e.err

abbrev pub recording : Str → ResultObject → Sharing → Sharing
recording key f s =
    let (out, r, m) = clone_object f s.memory in
    record s { memory = m; recorded = put key r s.recorded }

abbrev pub answering : ResultObject → Sharing → Sharing
answering f s =
    let (out, r, m) = clone_object f s.memory in record s { memory = m; held = give r out s.held }

pub data Step : Sharing → Sharing → Type 0 where
  -- A caller or a provider makes an object.
  makes :
      (s : Sharing) (o : Object)
      → IsReachable s.held o
      → Step s (record s { memory = alloc o s.memory; held = add s.memory.next s.held })
  -- A caller writes to an object that it can reach, as WithMetadata and NormalizeError do.
  writes :
      (s : Sharing) (r : Ref) (o : Object)
      → s.held r ≡ true
      → IsReachable s.held o
      → Step s (record s { memory = write r o s.memory })
  -- Send clones a result and Finalize or Set records the clone.
  records :
      (s : Sharing) (key : Str) (r : Ref) (f : ResultObject)
      → s.held r ≡ true
      → s.memory.objects r ≡ some (result_object f)
      → Step s (recording key f s)
  -- Reserve or Get answers with a clone of a recorded result.
  answers :
      (s : Sharing) (key : Str) (r : Ref) (f : ResultObject)
      → get key s.recorded ≡ some r
      → s.memory.objects r ≡ some (result_object f)
      → Step s (answering f s)
  -- Abandon, the cleanup, Set with nil, Delete.
  drops : (s : Sharing) (key : Str) → Step s (record s { recorded = delete key s.recorded })

pub data Reach (s : Sharing) : Sharing → Type 0 where
  here : Reach s s
  next : {t u : Sharing} → Reach s t → Step t u → Reach s u
