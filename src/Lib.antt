-- ===== src/Lib.antt =====
-- The remote camera of this repository has a server, which takes frames from a camera and encodes
-- them, and a client, which decodes and shows them. They talk over UDP. Both link the same transport,
-- in two copies that differ in a few lines.
--
-- Parts, and where they are modelled:
--
--   Rundown (inc/rundown.h). A word that counts the users of an object, with a flag for "not yet run
--   down" in bit 31. acquire_loop, release and rundown_l are Acquire, Release and Rundown_l;
--   obp_lock_loop is ObpLock. A compare-exchange loop runs over the list of words that memory holds at
--   its attempts, so it ends with the list, without a reply if each attempt finds another word.
--   Rundown/Once has threads as a step relation on the word, where each step is one interlocked
--   operation.
--
--   Endpoint (camera server/TUDP.cpp, remote camera/TUDP.cpp). One end of a connection. Endpoint/Buffers
--   has the buffers of one end and Endpoint::get, which chooses one; Endpoint/Send has SendUserData;
--   Endpoint has Init and OnData. The names that end in _client are the functions of remote camera,
--   where these differ from those of camera server. SendTo is a parameter, which says whether a packet
--   could be sent; OnUserData is one too, and gives a status. Memory behind a buffer is part of the
--   model: a buffer is a function from addresses to bytes, as it is in C.
--
--   Encoder (camera server/H264.cpp). The four samples that the encoder shares among threads: one 32-bit
--   word with the free samples, a queue of sample indices and a request for input. try_dequeue_once and
--   try_enqueue_once are one successful compare-exchange of TryDequeue and TryEnqueue, and try_dequeue
--   and try_enqueue their loops. process_frame and on_need_input are ProcessFrame and the event
--   METransformNeedInput. Encoder/Steps has threads as a step relation on the word.
--
--   Pixels (camera server/H264.cpp). YUY2ToNV12, which converts a frame for the encoder; its loops are
--   recursion on the number of pixel pairs in a row and of rows. Pixels/Planar has YUY2ToI420 of
--   camera/read.cpp, as what it writes through each pointer.
--
--   Connections (camera server/TUDP.cpp, CClientServerR; the same in remote camera). The list of the
--   endpoints of one socket, with their reference counts. Endpoints live in a heap at addresses, and one
--   that was deleted stays there, so that a later use shows. get, add_connection, remove_connection,
--   on_disconnect, on_ping, on_timer and stop are the functions of those names; the handlers run one at a
--   time. Connections/Counts says when the reference counts are right. Connections/Connect is Endpoint::Connect, and
--   Connections/Dispatch is OnData, which
--   tells datagrams apart by their size, and OnConnect; what derived classes, CNG and the socket do is
--   its record Program, and virtual functions give a status there and change no endpoint.
--
--   Wire (camera server/TUDP.cpp; the same in remote camera). A fragment as a datagram: the bytes of
--   E_PACKET, and SendMsg.
--
--   Packet (camera server/pkt.cpp and pkt.h; remote camera has the same files). What is in a
--   datagram. Packet/Layout has the fields of UH_PACKET in memory, Packet itself plain packets and those
--   under a session key (AES_Encode, AES_Decode), and Packet/PublicKey those under a public key
--   (RSA_Encode, RSA_AES_Encode, the three decoders, Decode);
--   Packet/Agreement has DH_Encode and Encode. CNG is the parameter Cng; the laws that
--   AesLaws and RsaPair state of it are what CNG documents of AES-GCM and of RSA without padding.
--   Allocation and random bytes are parameters. offsetof has 64 bits, as in the x64 build.
--
--   Capture (camera server/read.cpp, KsRead). The frames between the camera driver and the encoder.
--   create, start_reads, read_next, on_read_complete, io_completion_routine and stop are Create, Start,
--   Read, OnReadComplete, IOCompletionRoutine and Stop; what the driver returns is an argument.
--   Capture/Steps has the reads of Start, the completions on any threads, and Stop as a step relation,
--   where a completion is one step before ProcessFrame and one after it.
--
--   Formats (camera server/server.cpp and remote camera/client.cpp). GetStringsEnd, GetFormatInfo and
--   ValidateFormats, as loops on fuel over memory.
--
--   Session (camera server/server.cpp, CEncTcp). The commands strt, stop and init of the peer as
--   on_user_data, with start, stop and refresh under it; the calls of the system, of H264, of KsRead and
--   of CreateInfo are the record Machine, which may differ at each event.
--
--   Viewer (remote camera/client.cpp, CClient). The messages fmts, stop and H264 of the camera as
--   on_user_data, Start, OnConnect and OnDisconnect, with the references to pictures. An access through a
--   null pointer is an outcome of its own.
--
--   Picture (remote camera/video.cpp). Clamp and NV12toRGBA; addresses and indices are taken not to wrap.
--
--   Ring (asio/CiclicBuffer.cpp, ZRingBuffer). BuildBuffers, and the reads and writes that wake each
--   other: end_read and end_write are EndRead and EndWrite, and each of them is one step.
--
--   Listing (camera server/server.cpp and camera server/utils.cpp). Both functions CreateInfo and
--   IsCorresponds, which write the list of the cameras' data ranges for GetFormatInfo and the message for
--   ValidateFormats; the answers of the system and the drivers are the record Machine, and what is asked
--   of them is IsDdk of Listing/Entries and IsNamed of Listing/Message. Listing/Blocks and Listing/Walks
--   follow the first CreateInfo over the ranges of a camera, Listing/Cameras and Listing/Built the second
--   over the cameras.
--
--   Dns (asio/dns.cpp). The question that DnsWriteQuestionToBuffer writes, and the parser of replies,
--   IsNameValid and CDnsSocket::OnRecv, over memory; Dns/Lookup has HashString, DnsCache and
--   CSocketObject::DnsToIp. A name is walked on fuel, a step for each label and pointer.
--
--   Irps (asio/blockheap.cpp and asio/io.cpp). The heap of blocks BLOCK_HEAP, and the operators new and
--   delete of IO_IRP, NT_IRP and IO_OBJECT over it and Rundown; Irps/Steps has them as a step relation, where
--   Acquire is one atomic step.
--
-- Base has the names of the library that the modules share, and Base/Lists and Base/Bytes the lists and
-- the memory over the native numbers.
--
-- How the code becomes definitions: a method takes its object's state and returns the new one with its
-- result. Bit fields and machine words are natural numbers with their wrap-around written out
-- (ulong_mod is 2 ^ 32). Times are those of GetTickCount64, as an argument of what reads the clock.
-- The loop of SendUserData has fuel, one round for each byte of the message and one more: a round sends at
-- least one byte, but for an empty message, which takes one round. The
-- loops over formats have fuel too: for ValidateFormats one step more than the message has bytes is enough,
-- and for GetFormatInfo and CreateInfo more steps than a list or a string is long. A name of a DNS message is
-- walked on fuel, a step for each label, pointer and end; a pointer to itself takes more than any. The other
-- loops are over lists, or over a number that they lower.
-- Memory is total: a read of any address gives a byte, and a read outside of a message is no error of the
-- model. So the order in which ValidateFormats and IsNameValid test a bound and read is not seen in it;
-- the theorems on them are about the answer.
--
-- Not modelled: the log files and the helpers for keys;
-- calls of Windows (sockets, Media Foundation, kernel streaming, windows, files), the
-- drivers and tools beside the camera, and what no project file compiles.

pub mod Base
pub mod Capture
pub mod Connections
pub mod Dns
pub mod Encoder
pub mod Endpoint
pub mod Formats
pub mod Irps
pub mod Listing
pub mod Packet
pub mod Picture
pub mod Pixels
pub mod Ring
pub mod Rundown
pub mod Session
pub mod Viewer
pub mod Wire
