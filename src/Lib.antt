-- ===== src/Lib.antt =====
-- Verification of asimap, an IMAP and POP3 server over MH folders.
--
-- The server runs one process per user (asimap/user_server.py). Each open folder is a `Mailbox`
-- (asimap/mbox.py): lists of the keys and the UIDs of its messages, kept in step, and the MH
-- sequences, which hold the flags. A management task per mailbox takes in what has happened to the
-- folder (`check_new_msgs_and_flags`), lets commands in that do not conflict (`would_conflict`), and
-- the commands (STORE, EXPUNGE and others) work on the mailbox and notify the clients that have it
-- selected. Sequence sets of commands become message numbers in asimap/utils.py, flags become
-- sequence names in asimap/constants.py, and logins are throttled by asimap/throttle.py. The session
-- of an IMAP client (asimap/client.py) is a state machine that runs each command by calls of a mailbox
-- and of the user server, and sends what they return and the notifications that have come. A POP3
-- session (asimap/pop3_client.py) works on a snapshot of the inbox and expunges from it at QUIT.
--
-- Files:
--   Prelude: shared names and lemmas. `Lists`, `Ascending` (a Python set of ints is a strictly
--     ascending list), `Dict` (association lists for dictionaries), `Position` (indices of list
--     items), `Sorting` (`sorted`).
--   Result: asimap/exceptions.py, and results that carry an exception.
--   SeqSet: `sequence_set_to_list` of asimap/utils.py; what it returns in `SeqSet/Numbers`.
--   Compact: `compact_sequence` and `expand_sequence` of asimap/utils.py; `Compact/RoundTrip`.
--   Search: asimap/search.py, the criteria of SEARCH and what they match.
--   Parse: the parser of asimap/parse.py. `Strings`, `Sets`, `Keys`, `Fetches`, `Listing` and
--     `Commands` hold its methods, `Safety` and `Total` are about what is left of the
--     input, `Grammar` about the SEARCH command and its search keys as texts, which are those of RFC
--     3501 but for UNDRAFT and for escapes in quoted strings.
--   Constants: the flag names of asimap/constants.py; `Constants/RoundTrip`.
--   Throttle: asimap/throttle.py; when a login is refused in `Throttle/Lockout`.
--   Mbox: `Mailbox` of asimap/mbox.py. `Sequences` and `State` hold its data and the notifications,
--     `Invariant` what holds of it between commands, `Flags` the three `_help_…_flag` methods,
--     `Store` the method `store`, `Expunge` the method `expunge` (and `aremove` of asimap/mh.py),
--     `Resync` the method `check_new_msgs_and_flags`, `FolderFlags` the method
--     `_get_sequences_update_seen`, `MsgSet` the method `msg_set_to_msg_seq_set`, `Conflict` the
--     function `intersect` and the methods `would_conflict` and `_cleanup_executing_tasks`,
--     `Manager` the method `command_can_proceed` and a turn of `management_task`, `Find` the method
--     `search`, `Select` the methods `selected` and `unselected`, `Append` the method `append`,
--     `Database` the methods `commit_to_db` and `_restore_from_db`. Proofs are in their child modules.
--   Client: the handlers of asimap/client.py. `Client.antt` holds the session and its lines,
--     `Action` the steps of a handler, `Anytime`, `Select`, `Folders` and `Selected` the commands,
--     `Dispatch` the method `command`, `Login` the class `PreAuthenticated`; the other child modules
--     are proofs about all commands.
--   Pop3: asimap/pop3_client.py. `DotStuffing` is `dot_stuff`, and `DotStuffing/Receiver` a client's
--     side of it; `Session` the state of a `POP3CommandHandler` and its loops; `Commands` its
--     handlers, with the keywords of asimap/pop3_parse.py. `int` and `str.split`, which are
--     Python's, and the folder's messages, which Python's `email` package renders, are arguments.
--   Locks: `UpgradeableReadWriteLock` of asimap/utils.py; `Locks/System` tasks that share one.
--   Tests: concrete mailboxes and inputs.
--
-- Conventions. A method that changes the object takes the state and returns it with its result; an
-- exception is an error value, and what was changed before it stays changed. Numbers are natural
-- numbers: message keys, UIDs and counts are never negative in the source, and times are whole
-- seconds. The order of a set is that of its ascending list. A read of a missing key of a
-- `defaultdict` gives the empty set; that it also makes an entry is not modelled, since no modelled
-- operation can tell. Recursion is structural, but for the loops and the nested search keys of the
-- parser: these take the length of their input as fuel, which is enough since each turn consumes
-- some of it (`Parse/Total`).
--
-- The session calls mailboxes and the user server: a call is logged, and what it comes to (a result
-- or an exception, and the notifications that arrive meanwhile) is an argument, an `Answer`. A BYE closes
-- the connection, which cancels the task that runs the command, the exception `cancelled`. What a
-- command of the management task waits for is a list of rounds, the states that it finds on waking.
-- Outside the parser, the text of a sequence set, of a list of keys in the database and of a response
-- is the list of its parts, without the decimal digits.
--
-- The parser takes a list of Latin-1 codes, and what a regular expression of asimap/parse.py matches
-- is written as a function. The message of APPEND stays a text. A search key may be nested to any
-- depth: Python's limit on the depth of recursion, and its RecursionError, are not modelled.
--
-- Not modelled: what is sent for a message (asimap/fetch.py, asimap/generator.py), which rests on
-- Python's `email` package; of asimap/parse.py the text of a command for the log and
-- `conflicting_cmd`, which nothing calls; LIST and LSUB of asimap/client.py; processes and sockets
-- (asimap/server.py, asimap/user_server.py, asimap/pop3_server.py); password hashing
-- (asimap/auth.py, asimap/hashers.py); the connection to the database (asimap/db.py); and of
-- asimap/mbox.py the operations on the folder tree, FETCH, COPY and the packing of a folder. Of the
-- modelled methods: log messages, durations, and the awaiting of a mailbox's locks; the commit to
-- the database is modelled on its own, and left out where a method calls it.
pub mod Prelude
pub mod Result
pub mod SeqSet
pub mod Compact
pub mod Constants
pub mod Search
pub mod Parse
pub mod Mbox
pub mod Client
pub mod Pop3
pub mod Locks
pub mod Throttle
pub mod Tests
