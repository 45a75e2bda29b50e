-- ===== src/Lib.antt =====
-- PC Bio Unlock natives: a PC is unlocked by its user's phone. A login asks for an unlock, the phone
-- shows the request, and its answer carries a password that the login checks.
--
-- The parts, each with its module and its sources:
--   Utils         common-cpp/src/utils/Utils.cpp and BTUtils.cpp: texts, hexadecimal print, random
--                 texts, Bluetooth addresses and channels
--   Crypt         common-cpp/src/utils/CryptUtils.cpp: the encrypted packets. Memory has the buffers,
--                 where a write behind the end is an outcome of its own; Ssl what the code calls of
--                 OpenSSL and what it relies on
--   Storage       common-cpp/src/storage: settings and paired devices
--   I18n          common-cpp/src/I18n.cpp and I18n.h: the two languages and the choice between them
--   UnlockState   common-cpp/src/handler/UnlockState.h
--   Connection    common-cpp/src/connection: BaseUnlockServer (Server), the packet loops of the
--                 clients (Socket), what both clients have in common (Client), their threads
--                 (TcpClient, BtClient), and the listening server (TcpServer)
--   Handler       common-cpp/src/handler: the servers that GetResult makes (Servers), RunServer, the
--                 threads and their shared result (Threads, Epilogue), and the KeyScanner
--   Pam           pam-pcbiounlock: the PAM module (Module), pcbu_auth (Auth) and a whole login
--                 (Login)
--   Win           win-pcbiounlock/src, the Windows credential provider: the helpers of helpers.cpp by
--                 what they handle (Names, Kerb, KerbPack, Protect, AuthPackage, Repack), the tile
--                 CUnlockCredential (Credential), CSampleProvider (Provider) and CUnlockListener
--                 (Listener)
--   Api           common-cpp/src/api: the local address (Regex, LocalV4, Rank, Interfaces, Sourced,
--                 Best) and Bluetooth (Bluetooth, BluetoothLimits)
--   Tests         the theorems at concrete inputs
--
-- A login runs pcbu_auth (Pam), which runs UnlockHandler::GetResult (Handler) with the user's devices
-- (Storage). Each device has a server object (Connection), which sends an encrypted request (Crypt) and
-- decides on the answer.
--
-- On Windows the provider makes a tile for each device of a user. Selecting a tile starts its listener,
-- whose thread asks the handler and gives the tile the result; the provider then has LogonUI count the
-- tiles again, which logs on with the tile that succeeded, through GetSerialization.
--
-- The state of an object is a record with the fields of the class, and a method is a function from the
-- state to the new state. Functions keep the name of the source in lower case with underscores. A text
-- is a list of byte codes. What a system or library call returns is an argument: the pieces that read
-- delivers, the results of write, the descriptor of socket, the time, the rounds of a waiting loop.
-- A host (Host) is its byte order, its system, its allocator and its crypto library; the JSON library
-- (Json) and fmt::format are parameters too. Exceptions are none; a null pointer is none.
--
-- Threads: Threads.ThreadStep has one constructor for each atomic step of a thread of GetResult on
-- completed and currentResult, and Reach every interleaving of them with the load of the main thread.
-- Waiting.Move adds the mutex, notify_one and the main thread's wait, load and joins; a Run may also
-- wake the main thread for nothing. Returning, Deadlock, Stuck and Stored are about its runs, and Loads
-- about one in which a success is stored before it is loaded. RunServer itself is a function of the rounds that it
-- sees.
--
-- Loops on fuel: split_string has one more than the length of the text, and read_packet one more than
-- the bytes it waits for; each round of either consumes at least one, so the fuel is enough. All other
-- loops are recursion on their data. Loops that wait (wait_loop, accept_wait) return none on a list of
-- rounds that does not end them.
--
-- Integers: a 16-bit counter or length and the 64-bit times keep their wrap-around; an int64_t is its
-- bit pattern, and its sign is taken where the source compares it.
--
-- Windows: an HRESULT is its 32-bit word, a text is the list of its 16-bit units, and a null pointer is
-- none. What a call of Windows gives is a field of a record of calls (NameCalls, CredCalls, LsaCalls,
-- TileCalls, LogonCalls); what it promises is a record of hypotheses beside it. A packed logon is its
-- header and its block of bytes, where sizeof(KERB_INTERACTIVE_UNLOCK_LOGON) is a parameter. The waits
-- of ListenThread are lists of rounds, like those of RunServer.
--
-- Not modelled: logging, GetCurrentDateTime and the wide-string conversions, the class factory and the
-- DLL's reference count, the freeing of memory and the reference counts of the COM objects, the
-- libraries in common-cpp/deps and pstream, and the macOS calls of CheckPassword and KeyScanner. A
-- client's thread runs alone: a Stop from RunServer's thread that closes the socket during the
-- connection has no step of its own. The texts that are dumped as JSON are UTF-8 (dump throws on others),
-- and the names and passwords that strcmp and crypt get have no NUL inside.
pub mod Prelude
pub mod Utils
pub mod Win
pub mod Api
pub mod Crypt
pub mod Storage
pub mod I18n
pub mod UnlockState
pub mod Connection
pub mod Handler
pub mod Pam
pub mod Tests
