-- ===== src/Lib.antt =====
-- PySyft: data scientists send requests and code to a server that holds data they may not see.
--
-- The library models these parts of packages/syft/src/syft, each in the module of its name; names of
-- functions are the source's.
--
-- Role, service/user/user_roles.py. The roles with their numbers, the levels of roles that guard
--   the methods of services, and the table of capabilities. Python's `sum` over a set of roles is the
--   sum of their values; a level is read back by division with remainder, from the highest role down.
-- Permission, service/action/action_permissions.py. A permission and the string under which a
--   stash keeps it. A verify key is a number, and the encoding in hexadecimal of PyNaCl a parameter
--   (`KeyCodec`), which is assumed to decode what it encoded and to write hexadecimal digits only.
-- Stash, store/db/stash.py over one table. `Stash.Env` has what the stash stands on: the object
--   type with its serialisation, the statements of SQLAlchemy with what they promise (INSERT adds a
--   row at the end, UPDATE and DELETE change the rows that meet the condition and count them, ORDER
--   BY keeps a single row), the JSON array test, and the table of users. `Stash.Access` reads,
--   `Stash.Write` writes, `Stash.Grants` has the permissions of one object,
--   `Stash.Storage` the servers that hold it. Ids are numbers. An
--   exception that leaves a method rolls its session back, as `with_session` does where it opened
--   the session. The primary key of the table is the hypothesis that ids are unique. Python sets of
--   strings are lists up to membership (`as_set`). The partial update of an object's attributes is a
--   parameter, since it runs over the attributes of a pydantic class.
-- Request, service/request/request.py and the statuses of service/code/user_code.py. A request
--   is the list of the ids of its changes and a history; the methods of the single changes are
--   parameters that change a world of any type and say whether they succeeded. A dict is an
--   association list in its order. The status of a request for code of level 0 goes by the status of
--   its code, that of any other by its history; the code as it is read is an argument, which is
--   missing where reading it raises. Saving the request is not modelled.
-- Users, service/user/user_service.py. The checks that `update` and `delete` make, in their order,
--   as chains of tests that may raise. Keys are numbers; what the stash finds, and whether an email
--   exists, are arguments.
-- Broker, service/queue/zmq_producer.py and zmq_common.py. `Broker.State` has the state of
--   `ZMQProducer`, `Broker.Purging`, `Broker.Dispatching` and `Broker.Protocol` its methods, and
--   `Broker.Loop` the loop `_run`. Names, ids, addresses and messages are numbers. A `Worker`
--   object and the dict entry that holds it are one, by its address: an address in a waiting list
--   whose worker was deleted and registered again would be another object in the source, so
--   the model is faithful where no deleted worker stays in a list. The worker table with
--   `WorkerService._delete` and the parsers of frames are parameters (`Backend`); no law is assumed
--   of them. One round of the loop reads the clock once. The message argument of `dispatch` is left
--   out, since both callers give None. Requests arrive as events, which the
--   module Jobs makes; sockets and threads are not modelled.
-- Network, service/network/server_peer.py and routes.py. The routes of one peer as a list, with
--   their priorities. Python's hashes of texts and numbers are parameters (`Hashes`), of which no law
--   is assumed. Priorities are natural numbers; a number below zero is refused as 0 is.
-- Jobs, service/queue/queue_stash.py, service/queue/queue.py, service/job/job_service.py and
--   `read_items` of zmq_producer.py. `Jobs.Stashes` has what
--   the stash of queue items adds to `Stash`, `Jobs.Reading` one round of the thread that hands items
--   to the services of the broker. A round is one step, with the table as a parameter
--   (`QueueTable`: a query returns the rows of a status once each, an update changes one row);
--   other threads act between rounds. `contains_unresolved_action_objects` and the pool of an item
--   are parameters. The list `queued` of the items handed over is a trace that the code does not keep.
--   `Jobs.Handling` has the worker's end: the start of a run, its end, the monitor and the killing and
--   restarting of a job, each one step on the rows of the item and of the jobs. What the method
--   returns is a parameter, and processes are not modelled.
-- Project, service/project/project.py and project_service.py. `Project.Log` has the events, their
--   hashes and signatures, and the validation of a log; `Project.Service` what leader, members and
--   client do with it. SHA-256 and PyNaCl are a parameter (`Crypto`), of which it is assumed that a
--   signature verifies under the key it was made with. The projects on the servers are functions
--   of the server's key; a peer that is not reachable has none. Whether the notification about a
--   request fails is a parameter; the notification itself is not modelled.
-- Execution, service/policy/policy.py, service/code/user_code_service.py and part of
--   service/action/action_service.py. `Execution.Policies` has what input and output policies check,
--   `Execution.Calls` the way from `call` to the run of the code. Dicts are association lists, names
--   and ids numbers. The action service is a parameter (`Actions`), whose
--   `_get` may give the object behind a link, and of which no law is assumed; so are the run of the
--   code with `transform_kwargs` and the storing of its result, and who may read what. Policies that
--   users write stand by their answers.
--
-- Sync, service/sync/diff_state.py, service/sync/sync_state.py, client/syncing.py and
--   client/sync_decision.py, with part of service/sync/sync_service.py, `syft_get_diffs` of
--   types/syft_object.py and types/syncable_object.py.
--   `Sync.Objects` compares two objects, `Sync.Graph` walks over their dependencies, `Sync.Creating`,
--   `Sync.Sort` and `Sync.Filters` make, sort and filter the batches, `Sync.Ignore` and
--   `Sync.Handle` are the handlers of a batch, and `Sync.Instructions` and `Sync.Resolved` have the
--   instructions and the states that they send; `Sync.Server` has which batches a server keeps as
--   ignored. Dicts are association lists. A set is a list without repetitions, in an order
--   that no theorem relies on. All batches of a comparison share the graph and the diffs (`Shared`); a
--   batch is known by its root, which no two of them share. Objects have an id, a class and named
--   attributes; equality of values, `str.lower`, the hashes and the mocks of classes are
--   parameters. The remote call that applies a state is the state that a handler gives.
--
-- How they interact: a stash asks Role for the caller's role and Permission for the strings; the
-- table of workers that the broker reads is such a stash, kept abstract there. Jobs hands items to
-- the services of the broker. Execution takes the status of code as
-- given, and `Execution.Denied` joins it with the decisions of Request.
--
-- Loops: the loops of `dispatch` and `purge_workers` recurse on a number of rounds, which is the
-- number of requests of the service, and of the waiting workers, at their start; each round of the
-- first takes a request away, each round of the second moves one position on in a list that only
-- gets shorter, so that the rounds never run out before the loop ends. The loop of `walk_graph`
-- recurses on the number of targets of edges and two: each round but the last finds a target that was
-- not found before. All else is structural.
--
-- Machine integers do not occur: Python's integers are unbounded, and the model's are natural
-- numbers.
--
-- Not modelled: serialisation, the rest of the client, the user interface, the running of user
-- code in Python, the connection to databases, containers and clusters.
pub mod Prelude
pub mod Role
pub mod Permission
pub mod Broker
pub mod Stash
pub mod Request
pub mod Users
pub mod Network
pub mod Jobs
pub mod Project
pub mod Execution
pub mod Sync
