-- ===== src/Lib.antt =====
-- A model of the Paxos lock service in problemset2/src, with the theorems that make its parts
-- correct, and of four data scripts: the machine events and the task usage of project/src, and the
-- search and the choice of the lowest ancestor of problemset3/src.
--
-- A member of the Paxos group (server.py) is a few processes that share nothing but queues. A
-- connection process per peer reads messages and puts them on the queue of the acceptor or of the
-- proposer, and drops or duplicates some of them on purpose. The acceptor answers PREPARE and ACCEPT
-- messages out of its accept_history. The proposer takes a client connection, reads one LOCK or UNLOCK
-- at a time, and runs rounds of PREPARE and ACCEPT until the command is decided; every decided
-- command goes to the log, to instance_resolutions and to lock_set.
--
-- Files, with the code in problemset2/src that they are about:
--   Num, Command, Message   the numbers, commands and messages (message.py, command.py)
--   Acceptor                initialize_acceptor of server.py: `step` is one turn of its loop
--   LockSet                 lock_set and execute_command of server.py
--   Broadcast               send_to_acceptors of server.py
--   Proposer                initialize_proposer of server.py: its state, its messages, if_dup
--   Rounds                  the loops of the states PROPOSING and ACCEPTING, and a client request
--   MainLoop                the loops around them: `step` is what happens from one blocking read to
--                           the next, `run` a run of the process over its inputs
--   System                  a group of members: all their processes, and the messages in flight
--   Router                  connection_process of server.py
--   LockFile                the generators of client files in lock_file.py
--   Text, Print             texts with the methods of Python's str; the texts of commands and log lines
--   Validate                validate_lock_file of lock_file.py, on the lines that a proposer logs, and
--                           on their text
--   ClientFiles             validate_client_file of lock_file.py
--   Client                  create_command of client.py, and the loop that sends the commands and
--                           reads the responses
--   Bfs                     the breadth-first searches of problemset3/src/lca.py and lca_improved.py
--   Lca                     the reduction of common ancestors in problemset3/src/lca.py
--   Dict, Events            the dictionaries and the loop of project/src/events.py
--   Usage                   the loop of project/src/usage.py
--   Prelude, Prefix         what the other files share: lists, Boolean tests, library names; the first
--                           elements of a list
--   Examples                runs of the parts at concrete inputs
-- Below Acceptor, Effect says as a relation what a turn can do, and the other files use it; below
-- MainLoop, Act and Settling do so for an input, and Induction carries an invariant through a run.
--
-- Numbers: the counters of the code are Python integers that start at 0 and grow, so they are
-- natural numbers. The fields of a message may also be None or -1, and Num has these with the order
-- that Python 2 gives them. Resource ids are integers; where the client makes a command of a text, they
-- are of type int only within 64 bits, as in Python 2 on a 64-bit machine. Random numbers are inputs: a dice is a multiple
-- of 2^-53, a draw is what randint returned.
--
-- The network between the members may deliver a message any number of times, in any order, or never.
-- In System a PREPARE or an ACCEPT reaches an acceptor, and an answer to one reaches a proposer, only
-- if it was sent; no server is assumed to lie, and nothing is assumed of the rest.
--
-- The scheduler, the sockets and the timeouts are inputs too: a run is over any list of events, and
-- each event says which sends succeed. The loops of the processes are therefore functions on the list
-- of their inputs, and need no fuel. The searches of problemset3 have fuel; one round more than there
-- are pairs of a seed and a vertex is enough. Spark's join and reduceByKey are a record of operations
-- with their laws, which Examples fills. The order of message objects that max uses when proposal numbers
-- are equal is by address; it is the parameter `above`. The floats and the platform ids of
-- events.py are type parameters with their equality tests, those of usage.py a record of operations.
--
-- Not modelled: the opening and closing of sockets, pickling, locks, sleeping and printing; a process
-- that has ended by an exception stays in a crashed state. Neither are the reading of the input files
-- of problemset3 and the reduction of the usage reports of project.
mod Prelude
pub mod Num
pub mod Command
pub mod Text
pub mod Message
pub mod Acceptor
pub mod LockSet
pub mod Broadcast
pub mod Proposer
pub mod Rounds
pub mod MainLoop
pub mod Router
pub mod LockFile
pub mod Prefix
pub mod Print
pub mod Validate
pub mod ClientFiles
pub mod System
pub mod Bfs
pub mod Lca
pub mod Client
pub mod Dict
pub mod Events
pub mod Usage
mod Examples
