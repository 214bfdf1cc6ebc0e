-- ===== src/Lib.antt =====
-- The core of smbprotocol, an SMB 2 and SMB 3 client in Python: packing and unpacking messages, framing
-- them on a TCP stream, and the connection that numbers, signs, encrypts and sends requests and hands
-- the responses to their callers.
--
-- Which file models which part (paths from the root of the repository):
-- - Prelude, Bytes: Python's lists, dicts and exceptions as values, and the calls of the `struct` module.
--   An exception is a value of `Result`; a dict with int keys is an association list.
-- - Structure: src/smbprotocol/structure.py. A structure is the list of its fields; a field has its
--   class, byte order, size and stored value, where sizes and values may be lambdas over the structure.
--   Structure/Walk has the loops (`pack`, `unpack`, `__setitem__`, `__len__`). Lambdas see the fields
--   through a record of operations of a bounded depth, one level for each field, and report a
--   recursion_error beyond it: a lambda that needs more levels than there are fields calls itself.
-- - Transport: src/smbprotocol/transport.py. The socket is a parameter: what each call of it does is
--   listed by the caller, so that the results hold for every way in which bytes are accepted and arrive.
-- - Header: src/smbprotocol/header.py, the tables of commands, statuses, flags and headers.
-- - Connection and its children: src/smbprotocol/connection.py. Connection/Credits has
--   `_calculate_credit_charge`, Signature `_generate_signature` and `verify_signature`, Encryption
--   `_encrypt` and `_decrypt`, Build and Send `_send`, Worker and KeepAlive
--   `_process_message_thread`, Receive `receive`, and Steps the sequences of these calls. The state is
--   the record `Connection`. A call returns the state beside its result, since what was changed before an
--   exception stays changed. The object `Request` is named by its message id, and the table of
--   outstanding requests is the store; `receive` is given the object as it is then, since the object
--   outlives its entry in the table. The primitives of hmac and of the cryptography package are the
--   parameters `Crypto` and `Aead`, with their documented laws.
-- - Messages and its children: the messages of reads, writes, closes, flushes, queries and settings of
--   src/smbprotocol/open.py with what `Open.read` and `Open.write` build, those of session setup and
--   logoff of src/smbprotocol/session.py, those of tree connect and disconnect of
--   src/smbprotocol/tree.py that have no text, and the control requests of src/smbprotocol/ioctl.py with
--   what `ioctl_request` and `dfs_request` build. FileInformation, Notify and CreateContexts have the
--   tables of src/smbprotocol/file_info.py, reparse_point.py, change_notify.py and create_contexts.py
--   whose fields are ints, flags, bytes, booleans and GUIDs.
-- - Files and its children: src/smbclient/_io.py. Modes has `_parse_mode` and `_parse_share_access`,
--   Chunks `_chunk_size`, RawIo the class `SMBRawIO` and Transaction `SMBFileTransaction.commit`. A file
--   object is the record `RawIo`. `connection.send` followed by `connection.receive` stands in the
--   interface `Remote`, whose state is the world with the connection in it; `Serves` is what is
--   documented of a server that holds a file, and Files/Runs has a server that fills it. A commit is
--   given what stands outside each of its attempts: whether the file is closed, the answers to the
--   compound, and what resolving the path by DFS comes to.
-- - Dfs and its children: the referral and domain entries of src/smbprotocol/dfs.py, and in Dfs/Cache the
--   caches of `ClientConfig` in src/smbclient/_pool.py. The clock is an argument.
-- - Exceptions: the classes and the registry of src/smbprotocol/exceptions.py, and the error numbers that
--   `SMBOSError` gives.
-- - Os and its children: src/smbclient/_os.py. A path below a share is the list of its names. Copy has
--   `copyfile`, Directories `makedirs`, `removedirs` and `renames`, Stat what `stat` and `stat_volume`
--   make of the answers, DirEntry the class `SMBDirEntry` with the results that it keeps, Attributes the
--   calls on extended attributes, and Walk `walk`. The requests that they make stand in the records
--   `CopyServer`, `Share`, `Stats`, `Attributed` and `Listing`, whose state is the world; what is
--   documented of a server is a record beside each (`CopiesFiles`, `MakesDirectories`,
--   `RemovesDirectories`, `IsListed`, `HoldsAttributes`, `Agrees`), and Os/Runs has servers that fill them.
-- - Shutil and its children: src/smbclient/shutil.py. Rmtree has `rmtree`, with `onerror` as raising or as
--   going on, on a server that is the interface `Removals` and does as `KeptWithin` or `RemovesTrees` say,
--   and BasicInfo `_set_file_basic_info` and the read-only flag of `copymode`.
-- - Runs, Connection/Runs, Files/Runs, Files/Transaction/Runs, Dfs/Runs, Exceptions/Runs, Messages/Runs,
--   Shutil/Runs and Os/Runs with its children: the code at concrete inputs.
--
-- Fuel: the loop over the responses of a packet takes one unit for a response, and `receive_packet`
-- gives one more than the packet has bytes. `readall` takes one unit for a call of `readinto`; one more
-- than the bytes that are left is enough, since every call before the end returns a byte. `makedirs` takes
-- one unit for a call of `mkdir` and is given two for each name of the path and two more: the loop goes up
-- once and comes down once. `removedirs` is given one unit for each name and one more, since it goes up to
-- the root of the share at most. The chunks of a copy are given one unit for each byte of the file. `walk`
-- and `rmtree` take fuel for the depth of the tree, which only the server bounds; the depth is enough for
-- `rmtree`. Everything else is structural recursion.
--
-- Not modelled: lists, nested structures, dates and text as fields, and the messages that need them;
-- negotiation and session setup beyond what they write into the connection; resolving a symbolic link
-- in `receive`; opening a socket, locks and logging; the rest of the modules open, session, tree, dfs,
-- ioctl, file_info, reparse_point, change_notify, create_contexts and exceptions; the modules query_info
-- and security_descriptor; of smbclient the pool of connections, directory listing, the module path, and of
-- _os and shutil opening, renaming, linking, truncating and deleting single files, and copying trees.
pub mod Prelude
pub mod Bytes
pub mod Structure
pub mod Transport
pub mod Header
pub mod Connection
pub mod Files
pub mod Dfs
pub mod Exceptions
pub mod Os
pub mod Shutil
pub mod Messages
pub mod Runs
