-- ===== src/Lib.antt =====
-- gPlat: record queues and bulletin boards in memory-mapped files, served over TCP.
--
-- The library higplat (higplat/higplat.cpp, higplat/qbd.h) keeps three kinds of files: queues of
-- records, boards of named items, and databases of tables. The server (gplat/) and the tools call
-- it by the name of a file. The name leads through a table of mapped files to the address of the
-- mapping, and the call works there. A client sends its calls to the server as packets. It can also
-- subscribe to the tags of a board and wait for events: a write to a tag makes events for the
-- clients that subscribed to it. This development models the three kinds of files, the table and
-- the open addressing that they share; of the server the assembly of packets from the bytes of a
-- connection, the choice of a handler, the handlers, the subscriptions and the way of an event to
-- the client; of the client the requests and what it makes of the bytes of the answer; and it puts
-- the two ends together.
--
-- Files
--   Prelude   what the modules share: tests on numbers and byte strings, lists measured by native
--             numbers, C arrays as functions with memcpy, memset and memmove on them.
--   Errors    the error codes of qbd.h, and Outcome, the ways in which a function returns.
--   Hash      hash1, hash2 and the search loop with double hashing, once for all its copies in
--             higplat.cpp. Probe: the sequence of places. Search: what the loop returns. Directory:
--             names in their places. Change, Bury: insertion and deletion. Count, Rooms: slots in
--             use and slots with room. Lookup: the table as a map. Same:
--             tables with the same names.
--   FileTable table[], tabCounter, inserttab, fetchtab, fetchtab1, deletetab, LoadQ, UnloadQ,
--             UnloadAll, FlushQFile. Inv: the invariant. Insert, Delete, Flush: the operations.
--   Queue     QUEUE_HEAD, RECORD_HEAD, CreateQ, ReadQ, PopJustRecordFromQueue, MulReadQ, MulReadQ2,
--             WriteQ, ClearQ, SetPtrQ, PeekQ, IsEmptyQ, IsFullQ. Make has CreateQ and Put has
--             WriteQ. Inv: the pointers. Fifo: the bounded FIFO that a normal queue is compared
--             with. Contents, Refine: the comparison. History, Shift: the shift mode. Create:
--             CreateQ. Pointers: SetPtrQ.
--   Board     BOARD_HEAD, BOARD_INDEX_STRUCT, CreateB, ReadB, GetStringLength, ReadB_String,
--             ReadB_String2, WriteB, WriteB_String, WriteBOffSet, ClearB, DeleteItem, CreateItem,
--             ReadType, ReadBoardInfo. Add has CreateItem, Erase has DeleteItem, Store has the
--             writes. Inv: the invariant. Layout: where items lie. Items, Rewrite: reads and writes
--             of one item. Write, WritePart, WriteString; Place, Creation, NewItem; Delete,
--             Removal; Fresh.
--   Database  DB_HEAD, DB_INDEX_STRUCT, ClearTable, UpdateTable, InsertTable, RefreshTable,
--             SelectTable, ClearDB. Create has CreateTable and Drop has DeleteTable. View: the rows
--             of a table. Alter: what changes one table alone. Spec: the abstract database, a map
--             from names to lists of rows. Refine, Run: the comparison. Created, Creation, Removal,
--             Fresh, Failure.
--   Packet    gplat/ngx_c_socket_request.cxx from recv to the message queue: the four states of
--             ngx_read_request_handler. Inv: the places given to recv. States, Stream, Assembly: a
--             stream of packets cut into pieces.
--   Subscribe CSubscribe of gplat/CSubscribe.h. Laws: what its lists hold.
--   Server    gplat/ngx_c_slogic.cxx and the files of its connections, as far as they deal with
--             events: SUBSCRIBE, POSTWAIT, REGISTERPLCSERVER, the notifications, the timers, the
--             end and the reuse of a connection. Handle has the handlers. Deliver, Posts: one
--             event. Steps: the server as a sequence of steps. Fifo, Run, Delivery: the way of the
--             events. Timers, Delays, Delayed, Waiting: the delayed events in their timers.
--             Answers: the answers to POSTWAIT. Leaving: a client that leaves. Sends, Goes: what a
--             notification leaves alone.
--   Pool      gplat/ngx_c_socket_conn.cxx: the free connections, and those that wait for
--             ServerRecyConnectionThread. Steps: runs. Owners: every connection is in one place.
--             Numbers: iCurrsequence.
--   Dispatch  MSGID of include/msg.h, statusHandler and threadRecvProcFunc of
--             gplat/ngx_c_slogic.cxx. Table: the table against the numbers.
--   Message   MSGHEAD of include/msg.h as a record and as 180 bytes. Bytes: numbers and texts in
--             fields. Layout: the fields in their places.
--   Library   the calls of higplat.cpp by the name of a file: fetchtab, then the call on what is
--             mapped there. Found: a call whose file is mapped.
--   Handlers  the handlers of gplat/ngx_c_slogic.cxx that call the library, on the library and the
--             server together. Serve: threadRecvProcFunc with the call of the handler. Reach: which
--             handler a request reaches. Keeps, Error, Failure: requests that fail.
--   Client    higplat.cpp from readn to registertag: a monad of calls that read a stream and may
--             fail or close the socket. Requests: the head that each call fills. Calls: readq,
--             writeq, readb, writeb and the others. Stream: readn.
--   Network   client and server together. Answer: what a call makes of an answer. Arrive: the way
--             of the requests. Board: a tag that is written and read. Demand, Queue: requests on a
--             queue.
--
-- How code and model correspond
--   A function keeps the name of its source in snake case. The operations on a queue or a board
--   take the mapped file as an argument and return it anew; Library turns a name into an address by
--   fetchtab and applies them to what is mapped there. Outcome has `done` for a call that returns
--   true, `fail` for one that sets errorCode and returns false, `refuse` for one that returns false
--   alone, `fault` where the C++ is undefined (an access outside a buffer, a remainder by zero) and
--   `hang` for a loop without end.
--   A board's memory is one function from places to bytes: the items from place 0, the types from
--   `data_size` on. The answers of the file system, the time and the buffers of the caller are
--   arguments. What LoadQ reads of the file it maps is an argument too. A database is modelled like
--   a board.
--   The server's connections are numbered. A handler, a notification, a timer that expires and the
--   loss of a connection are one step each, and a run is any sequence of them; timers expire in any
--   order. The pool's thread gives back what is due in one step. `none` as the time limit of a
--   POSTWAIT is the -1 of the source, a wait without end. The answers of recv are arguments; the
--   numbers in a packet are little-endian, and the memory taken for one holds any bytes. A handler
--   returns `none` where the library faults or hangs, where it reads behind its packet, and where it
--   ends the process by exit.
--   A Message has those fields of the head that a client reads of an answer. `errorCode` is kept
--   for each thread, and a handler answers with it what the library refuses without an error.
--   A call of the client gets the answers of read as a list, and the errno of a send_all that
--   fails; it gives the values that it leaves behind its pointers, which are never null, and
--   whether it closed the socket. The exception that AutoErrorCheck throws on an error comes after
--   that.
--   A text in a head ends at its first zero.
--
-- Bounds and fuel
--   An `int` of the source is a natural number: sizes, counts and positions are not negative, and
--   the theorems on queues suppose fewer than 2^31 slots. The sums of MulReadQ, the number of rows
--   after InsertTable and the size of a table in CreateTable are `fault` where an `int` does not
--   hold them. `num - 1` of an empty queue keeps its
--   32-bit pattern. A name is a list of char values from 1 to 127. The search loop runs on as many
--   rounds as the table has slots, and `none` stands for a loop that does not end. Both tables have
--   a prime number of slots, so the sequence of places visits every slot in that many rounds.
--   A type address that has gone out of use stops at 0 where DeleteItem would make it negative; no
--   byte is read by it.
--
-- Not modelled
--   Locks, and the interleaving of threads within a call or a handler. Of higplat: ReadHead,
--   ReadInfoB, the error texts, connectgplat, the loop of send_all, and the write_plc_ calls for
--   one C++ type each. Of the server: the heap of the timers, periodic timers and timerfd; epoll,
--   clearconnection and the sending thread; start, configuration, log, signals and processes. The
--   PLC gateway (s7ioserver/) and the tools. The Snap7 library (snap7/) is another project's.
pub mod Prelude
pub mod Errors
pub mod Hash
pub mod FileTable
pub mod Queue
pub mod Board
pub mod Database
pub mod Packet
pub mod Subscribe
pub mod Server
pub mod Dispatch
pub mod Message
pub mod Library
pub mod Handlers
pub mod Client
pub mod Network
pub mod Pool
