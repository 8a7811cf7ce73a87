-- ===== src/Broker/State.antt =====
-- The state of the broker of packages/syft/src/syft/service/queue/zmq_producer.py (zmq_common.py has
-- its workers, services and commands). Names, addresses, ids and messages are only compared, and
-- numbers stand for them; `hexlify` is injective, so an address is its own identity.
use py_syft.Prelude.{ℕ, Bool, true, false, Option, List}

-- A `Worker` object. `timeout` says which `Timeout` object its `expiry_t` is.
pub record Worker : Type 0 where
  pub service : Option ℕ
  pub syft_worker_id : Option ℕ
  pub timeout : ℕ

-- A `Service` object.
pub record Service : Type 0 where
  pub requests : List ℕ
  pub waiting : List ℕ

pub data ConsumerState : Type 0 where
  idle consuming detached : ConsumerState

-- What `send_to_worker` hands to the socket: the worker, and the command with its message.
pub data Sent : Type 0 where
  request : ℕ → ℕ → Sent
  heartbeat disconnect : ℕ → Sent

-- What the broker calls outside its file: the table of workers, the service that deletes one, and
-- the parsers of frames. `find` is `_syft_worker`, with `to_be_deleted` of what it finds;
-- `delete` says whether `WorkerService._delete` raised; `decode` and `parse_uid` are `_.decode()` and
-- `UID(_)`, `none` where they raise. `fresh` is the `Timeout` that pydantic puts
-- in a new `Worker`, the class's default object or a copy of it.
pub record Backend : Type 1 where
  pub Store : Type 0
  pub find : Store → Option ℕ → Option Bool
  pub set_state : Store → ℕ → ConsumerState → Store
  pub delete : Store → Option ℕ → Store × Bool
  pub decode : ℕ → Option ℕ
  pub parse_uid : ℕ → Option ℕ
  pub fresh : ℕ → ℕ

-- `WORKER_TIMEOUT_SEC`, `HEARTBEAT_INTERVAL_SEC`
abbrev pub worker_timeout : ℕ
worker_timeout = 60

abbrev pub heartbeat_interval : ℕ
heartbeat_interval = 2

pub data Failure : Type 0 where
  value_error attribute_error index_error decode_error syft_exception backend_error : Failure

-- A frame of a worker: its command, or bytes that are none of them.
pub data Command : Type 0 where
  ready heartbeat_command disconnect_command invalid : Command

-- What `poll` and `recv_multipart` bring: nothing, a message of fewer than three frames, of three, or
-- a whole one with its address, whether its header is `W_WORKER`, its command and its data.
pub data Poll : Type 0 where
  quiet short three_frames : Poll
  message : ℕ → Bool → Command → List ℕ → Poll

-- A round of `_run` at a reading of the clock, or a request that `read_items` appends.
pub data Event : Type 0 where
  round : ℕ → Poll → Event
  enqueue : ℕ → ℕ → Event

module _ (b : Backend) where
  open b use {Store}

  -- `ZMQProducer`. `known` are the keys of `self.workers`, and `objects` the `Worker` objects;
  -- `names` are the keys of `self.services`, and `services` the `Service` objects. `timeouts` has
  -- the `next_ts` of each `Timeout` object, `sent` what went to the socket.
  pub record Producer : Type 0 where
    pub known : ℕ → Bool
    pub objects : ℕ → Worker
    pub waiting : List ℕ
    pub names : List ℕ
    pub services : ℕ → Service
    pub timeouts : ℕ → ℕ
    pub heartbeat_at : ℕ
    pub store : Store
    pub sent : List Sent
    pub closed : Bool

  -- A method that may raise: what was written before stays written.
  pub data Outcome : Type 0 where
    done : Producer → Outcome
    raised : Failure → Producer → Outcome

  abbrev pub final : Outcome → Producer
  final (done s) = s
  final (raised e s) = s

  abbrev pub and_then : Outcome → (Producer → Outcome) → Outcome
  and_then (done s) f = f s
  and_then (raised e s) f = raised e s

  abbrev pub raise_when : Bool → Failure → Producer → Outcome
  raise_when true e s = raised e s
  raise_when false e s = done s
