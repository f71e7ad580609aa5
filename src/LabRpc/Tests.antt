-- ===== src/LabRpc/Tests.antt =====
-- The theorems about calls over the network, applied.
use cs426_spring2023_labs.Prelude.{
  List, ℕ, ◌+◌, Bool, true, false, [], ◌∷◌, none, some, GoString, text, nat_eq, bytes_eq, ◌≡◌, refl,
}
use cs426_spring2023_labs.Prelude.Map.{lookup, insert}
use cs426_spring2023_labs.LabRpc.{
  make_end, ReplyMsg, no_reply, Network, make_network, connect, enable, add_server, delete_server,
  is_server_dead, read_endname_info, receive,
}
use cs426_spring2023_labs.LabRpc.Servers.{
  Gob, Method, Server, split_last_dot, make_service, make_server, add_service, suitable_methods,
  dispatch_server, dispatch_service, call_method,
}
use cs426_spring2023_labs.LabRpc.Requests.{
  Draws, begin_req, finish_req, wait_handler, tick, ticks, failure, Later, process_req, send_reply,
}
use cs426_spring2023_labs.LabRpc.Client.{Called, make_req, call}
use cs426_spring2023_labs.LabRpc.Deletion.{
  apply, apply_all, Op, makes_end, receives, add, enables, apply_all, deleted_server_silent,
}
use cs426_spring2023_labs.LabRpc.Delivery.{call-true}
use cs426_spring2023_labs.LabRpc.Steps.{LeadsTo}
use cs426_spring2023_labs.LabRpc.RoundTrip.{call_delivers}

-- A coding of numbers as one byte each.
abbrev decode_byte : ℕ → GoString → ℕ × Bool
decode_byte old [] = (old, false)
decode_byte old (b ∷ bs) = (b, true)

abbrev gob : Gob
gob = record {
  GoType = Unit;
  Value = ℕ;
  zero_of = λ t. 0;
  type_of = λ v. tt;
  encode = λ v. (v ∷ [], true);
  decode = decode_byte;
}

-- A handler that adds its argument to the state and replies with the sum.
abbrev adding : Method gob ℕ
adding = record {
  name = text "Add";
  pkg_path = [];
  num_in = 3;
  reply_is_pointer = true;
  num_out = 0;
  reply_type = tt;
  handler = λ args reply state. (args + state, args + state);
}

abbrev adder : Server gob ℕ
adder = add_service gob ℕ (make_service gob ℕ (text "Sum") (adding ∷ [])) (make_server gob ℕ)

-- End 1 leads to server 7, whose object is number 0.
abbrev ready : Network
ready = enable 1 true (connect 1 7 (add_server 7 0 make_network))

abbrev no_draws : Draws
no_draws = record {
  short_delay = 0;
  drop_request = 0;
  drop_reply = 0;
  reorder = 0;
  reorder_delay = 0;
  timeout = 0;
}

abbrev at_once : Later
at_once = record { polls = ready ∷ []; last = ready }

abbrev called : Called gob ℕ
called = record {
  ok = true;
  reply = 7;
  network = record ready { bytes = 1 };
  servers = (0, record adder { count = 1 }) ∷ [];
  state = 7;
}

leads : LeadsTo 1 7 0 ready
unfolding enable connect add_server make_network lookup insert
leads = record { on = refl; to = refl; there = refl }

call_delivers_example :
    call gob ℕ no_draws true 1 (text "Sum.Add") 4 0 ready at_once ((0, adder) ∷ []) 3 ≡ some called
unfolding enable connect add_server make_network lookup insert add_service make_service make_server
    suitable_methods split_last_dot is_server_dead
call_delivers_example =
    call_delivers no_draws true 1 7 0 (text "Sum.Add") 4 0 ready at_once ((0, adder) ∷ []) adder
      adding 3 refl refl leads refl
      (record {
        service_name = text "Sum";
        method_name = text "Add";
        service = make_service gob ℕ (text "Sum") (adding ∷ []);
        named = refl;
        serves = refl;
        has = refl;
      })
      (refl, (refl, tt)) refl refl refl

runs :
    call gob ℕ no_draws true 1 (text "Sum.Add") 4 0 ready at_once ((0, adder) ∷ []) 3 ≡ some called
unfolding enable connect add_server make_network lookup insert add_service make_service make_server
    suitable_methods split_last_dot is_server_dead call make_req process_req begin_req
    read_endname_info receive dispatch_server dispatch_service call_method wait_handler ticks
    finish_req send_reply
runs = refl

call-true_example :
    (servername : ℕ) × (server : ℕ) × (rs : Server gob ℕ) × (rs' : Server gob ℕ) × (rep : ReplyMsg)
    × LeadsTo 1 servername server ready
    × (lookup server ((0, adder) ∷ []) ≡ some rs)
    × (dispatch_server gob ℕ (make_req gob ℕ 1 (text "Sum.Add") 4) rs 3 ≡ some (rep, rs', 7))
    × (called.servers ≡ insert server rs' ((0, adder) ∷ []))
    × (gob.decode 0 rep.reply ≡ (7, true))
    × (is_server_dead 1 servername server ready ≡ false)
call-true_example =
    call-true gob ℕ no_draws true 1 (text "Sum.Add") 4 0 ready at_once ((0, adder) ∷ []) 3 called
      runs refl

-- Server 7 is deleted, a new end is made, a request comes, and another object takes the name.
abbrev changes : List (Op (Unit {0}))
changes =
    makes_end 3
    ∷ receives (record { endname = 1; svc_meth = text "Sum.Add"; args_type = tt; args = 4 ∷ [] })
    ∷ add 7 1
    ∷ enables 1 true
    ∷ []

abbrev replaced : Network
replaced = record {
  reliable = true;
  long_delays = false;
  long_reordering = false;
  ends = (3, tt) ∷ [];
  enabled = (1, true) ∷ (3, false) ∷ [];
  servers = (7, some 1) ∷ [];
  connections = (1, some 7) ∷ (3, none) ∷ [];
  is_done = false;
  count = 1;
  bytes = 1;
}

deleted_server_silent_example :
    (finish_req no_draws 1 7 0 true false (some no_reply) replaced ≡ failure 0)
    × (wait_handler 1 7 0 (tick replaced ∷ []) ≡ some none)
unfolding apply_all apply make_end receive add_server enable delete_server connect make_network
    lookup insert
deleted_server_silent_example =
    deleted_server_silent no_draws 1 7 0 true false (some no_reply) ready replaced changes []
      (refl, (refl, (refl, (refl, tt)))) refl
