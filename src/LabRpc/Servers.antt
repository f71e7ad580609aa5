-- ===== src/LabRpc/Servers.antt =====
-- lab3/labrpc/labrpc.go: Server and Service.
--
-- Parameters: `Gob` is labgob (encoding/gob); `State` the state of all the objects whose methods
-- handle the calls, and a handler what `function.Call` does, which reflect calls. Handlers of one
-- server may run at the same time; here each runs in one step.
use cs426_spring2023_labs.Prelude.{
  ℕ, ◌+◌, Bool, true, not, ◌||◌, List, [], ◌∷◌, Option, none, some, ◌>>=◌, GoString, bytes_eq,
  nat_eq, ◌==◌, ◌=?◌, if◌then◌else◌,
}
use cs426_spring2023_labs.Prelude.Map.{Map, lookup, insert}
use cs426_spring2023_labs.LabRpc.{ReqMsg, ReplyMsg}

-- `decode` gives what the variable holds afterwards, and whether there was no error; `encode` what
-- was written.
pub record Gob : Type 1 where
  pub GoType : Type 0
  pub Value : Type 0
  pub zero_of : GoType → Value
  pub type_of : Value → GoType
  pub encode : Value → GoString × Bool
  pub decode : Value → GoString → Value × Bool

-- What reflect says about a method: `handler args reply state` is what a call leaves in the reply
-- and in the state.
pub record Method (gob : Gob) (State : Type 0) : Type 0 where
  pub name : GoString
  pub pkg_path : GoString
  pub num_in : ℕ
  pub reply_is_pointer : Bool
  pub num_out : ℕ
  pub reply_type : gob.GoType
  pub handler : gob.Value → gob.Value → State → gob.Value × State

pub record Service (gob : Gob) (State : Type 0) : Type 0 where
  pub name : GoString
  pub methods : Map GoString (Method gob State)

pub record Server (gob : Gob) (State : Type 0) : Type 0 where
  pub services : Map GoString (Service gob State)
  pub count : ℕ

-- `strings.LastIndex(s, ".")`, and the parts before and after it.
unfoldable pub split_last_dot : GoString → Option (GoString × GoString)
split_last_dot [] = none
split_last_dot (b ∷ bs) = elim (split_last_dot bs) [
  | none ↦ if b == 46 then some ([], bs) else none
  | some (front, back) ↦ some (b ∷ front, back)
]

module _ (gob : Gob) (State : Type 0) where
  -- The name is the name of the receiver's type.
  abbrev suitable : Method gob State → Bool
  suitable method = not (
      not (method.pkg_path =? [])
      || not (method.num_in == 3)
      || not method.reply_is_pointer
      || not (method.num_out == 0))

  unfoldable pub suitable_methods :
      List (Method gob State) → Map GoString (Method gob State) → Map GoString (Method gob State)
  suitable_methods [] methods = methods
  suitable_methods (method ∷ more) methods =
      suitable_methods more (if suitable method then insert method.name method methods else methods)

  unfoldable pub make_service : GoString → List (Method gob State) → Service gob State
  make_service name methods = record { name = name; methods = suitable_methods methods [] }

  unfoldable pub make_server : Server gob State
  make_server = record { services = []; count = 0 }

  unfoldable pub add_service : Service gob State → Server gob State → Server gob State
  add_service svc rs = record rs { services = insert svc.name svc rs.services }

  abbrev pub get_count : Server gob State → ℕ
  get_count rs = rs.count

  -- The argument's errors are ignored, and so are those of the reply's encoding.
  unfoldable pub call_method : Method gob State → ReqMsg gob.GoType → State → ReplyMsg × State
  call_method method req state =
      let args = (gob.decode (gob.zero_of req.args_type) req.args).0 in
      let called = method.handler args (gob.zero_of method.reply_type) state in
      (record { ok = true; reply = (gob.encode called.0).0 }, called.1)

  unfoldable pub dispatch_service :
      Service gob State → GoString → ReqMsg gob.GoType → State → Option (ReplyMsg × State)
  dispatch_service svc methname req state =
      lookup methname svc.methods >>= λ method. some (call_method method req state)

  -- The server counts the call before it looks at its name.
  unfoldable pub dispatch_server :
      ReqMsg gob.GoType → Server gob State → State → Option (ReplyMsg × Server gob State × State)
  dispatch_server req rs state = split_last_dot req.svc_meth >>= λ (service_name, method_name).
      lookup service_name rs.services >>= λ service.
      dispatch_service service method_name req state >>= λ (reply, after).
      some (reply, record rs { count = rs.count + 1 }, after)
