-- ===== src/Lib.antt =====
-- Verification library of chess-pyspec, a Python client and server for the SPEC protocol.
--
-- The program: a connection carries messages, each a header and data (pyspec/_connection). A
-- client numbers its requests and gives each reply to the request with its number; on top of it a
-- table of remote properties counts subscriptions and caches values, and motors are moved by
-- setting properties (pyspec/client). A server turns messages into events, whose handlers answer
-- requests, execute commands and functions, and broadcast properties (pyspec/server); what a client
-- may ask it to evaluate is a small language of expressions (pyspec/_spec_syntax.py).
--
-- The files:
--   Base and below: numbers, lists, texts as lists of code points, bytes as lists of numbers below
--     256, Python exceptions as values. Bytes: UTF-8, and words in both byte orders.
--   Platform: `Floats` and `Numpy`, what the program takes from Python's float and from numpy, as
--     parameters with the documented laws that are used. Dict: dict as an association list.
--   Protocol/Command, TypeCode, Fields, Struct, Layout: the enumerations of command.py and data.py,
--     and the ctypes structures of protocol.py with their fields.
--   Protocol/Payloads, Messages: encoding of data, serialize, _read_one_message and message_stream
--     of protocol.py.
--   AssociativeArray: associative_array.py, its keys, wire form and element property names.
--   Client/Sequence, Requests: sequence numbers, _send_with_reply and the dispatch of
--     client_connection.py and connection.py. Client/Methods: what its methods send.
--     Client/PropertyTable: _remote_property_table.py, with the
--     arrays of its cache as objects in PropertyTable/Sharing. Client/EventStream: the scopes of its
--     EventStream.subscribed, for one object.
--     Client/Motors: prepare_move, move and synchronized_motors of _motor.py.
--   SpecSyntax: _spec_syntax.py, over the nodes of Python's ast module.
--   Server/Events, State, Commands, Handlers, Variables: the dispatch of server_connection.py, and
--     server.py with _remote_property.py and _remote_function.py.
--   Server/Runs: what can happen to a server, as a sequence of actions.
--   File/Index: the index of scans of file/spec.py. File/Block, Block/Parse, Block/Getters: its
--     class FileBlock with the methods that take one line, parse with finalizeParsing and McaData,
--     and the getters of Scan and Header. File/Save: Scan.save. File/Update: FileSpec.update.
--   System: a client's request for a property, over the wire to the server and back.
--     System/Methods, System/Symbols: the methods of a client and the arguments of its remote
--     functions, as the server reads them.
--   Tests: the parameters at concrete functions, and runs at concrete inputs.
--
-- Shared state: the counter of sequence numbers is a global of its module, which other connections may
-- move on at any time. Elsewhere values are not shared, but for the arrays of PropertyTable/Sharing.
--
-- Concurrency: a coroutine runs from one await to the next without another one running. Each
-- handler is one step that takes the state of its component to the next; what waits in asyncio is a
-- queue, run from its oldest entry, and a remote function that is a coroutine is a call that ends at
-- some later step with any result. A coroutine that is aborted is taken to end at once with the
-- exception that its cancellation becomes. The set of the listeners of a property is a list without
-- duplicates, in the order in which they were added.
--
-- Files: a file is its text, with one position for each character; Python's float and int on a text,
-- the texts that %.12g and %s give, and numpy's arrays are parameters. A parse that raises gives no
-- block, while the program keeps what it has read by then.
--
-- Bounds: message_stream takes fuel, one more than the bytes in the stream, and every message takes
-- at least 12 of them. get_next_sequence_number loops at most twice. Words of w bits are reduced
-- modulo 2 ^ w where ctypes reduces them.
--
-- Not modelled: sockets and their exceptions, logging, the texts of errors, the registration of
-- properties and functions by inspection, event emitters apart from the order of their listeners,
-- the readers and writers of files (pyspec/file) other than spec.py, and of that getMeta, __str__
-- and what asks the file system, the parse of a header where the index of scans ends it, which raises
-- only for a line that begins with "@A", shared memory (C code), and the facade client.py.
pub mod Base
pub mod Bytes
pub mod Protocol
pub mod Platform
pub mod Payload
pub mod Dict
pub mod AssociativeArray
pub mod SpecSyntax
pub mod Client
pub mod Server
pub mod File
pub mod System
pub mod Tests
