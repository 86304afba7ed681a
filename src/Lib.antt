-- ===== src/Lib.antt =====
-- The firmware of the ESP32 of a Pioneer drone: what its buffered file transfer, its MAVLink FTP
-- client, its transfer into flash memory, its dispatcher and sockets for MAVLink, its routing of
-- messages, its containers of buffers, its version parser, its stored parameters and its Wi-Fi
-- settings do.
--
-- The parts and how they interact. A file that the drone fetches over HTTP is appended to a RAM
-- file of limited size (SingleBufferRamFileSystem). In front of it stands FlushingBufferFileSystem,
-- which hands the RAM file to its listeners each time it is full or closed, and starts it over. A
-- listener is FileSystemTransferImplementor, which copies the file into another file system, or
-- SaluteFlashMemoryTransferImplementor, which writes it into flash memory page by page, or
-- BftFtpClient, which uploads it to the autopilot by MAVLink FTP, one chunk for each
-- acknowledgement, with a timer that repeats requests. MAVLink messages come and go by the
-- receivers of wifi_uart_bridge, which RoutingRules connects: a message of an origin goes to those
-- receivers for which the table reduces the origin. Dispatcher takes messages out of the bytes and
-- gives them to microservices, one of which, GsNetwork, opens sockets for the autopilot. Queues of
-- messages are CircularBuffers, and CircularSwap exchanges buffers over one. VersionParser takes
-- the version of the flight controller from what its UART sends. The Wi-Fi microservice writes names
-- and passwords of networks into fields of the registered modules; what a module has taken is
-- mirrored into a parameter, which SdMemoryProvider keeps in a JSON file on the SD card, and from
-- which the module of the station takes its credentials when it connects. ApVer asks the autopilot
-- for its version and tells it as the fields of a module.
--
-- Which file models what (functions by their names in the source, in snake_case):
--   Base: tests on numbers, lists over the native numbers, words of 8, 16 and 32 bits with their
--     wrap-around written out.
--   Storage/File: File, FileDescriptor and the interface of
--     components/buffered_file_transfer/buffered_file_transfer/storage/FileSystem.hpp as a record.
--   Storage/Bounded: a file as a list of bytes with a cursor and a capacity, which does what the RAM
--     file does, also where that differs from the documentation. Storage/Documented: the file as
--     FileSystem.hpp documents it. Storage/Ram: SingleBufferRamFileSystem.cpp, with its invariant
--     (Ram/Inv), what it does to the two (Ram/Refine, Ram/Documented), its opening and closing
--     (Ram/Lifecycle). The block of memory is an address and its bytes,
--     `nullptr` is 0.
--   Storage/Flushing: FlushingBufferFileSystem.cpp over a file system and its listeners, an
--     interface that Process/FileSystemTransfer (FileSystemTransferImplementor.cpp) fills.
--   Flash: FlashMemory.hpp and FlashMemoryGeometry.hpp of components/system/system/middleware, a
--     flash memory as an interface, which Flash/Zd35 (components/zd35/zd35/FlashMemory.cpp) fills
--     over the flash driver. Flash/Crc: Crc32 of components/utility/utility/al; Crc/Xor
--     has the laws of `^` and `&`, Crc/Bits the same checksum digit by digit. Flash/Transfer and
--     Flash/Salute: FlashMemoryTransferImplementor.cpp and SaluteFlashMemoryTransferImplementor.cpp;
--     Salute/Laws says what they rely on of a flash memory, Salute/Working what the flash driver has
--     to do for the memory of Flash/Zd35 to be one, Salute/Spot, Salute/Page, Salute/Loop
--     and Salute/Finish follow the erasing, one page, the loop and what comes behind it.
--   Mavlink/Ftp: the payload of components/mav/priv_include/Helper/FileTransferProtocol.hpp.
--     Mavlink/FtpClient: the state and the transitions of Microservice/BftFtpClient.cpp;
--     FtpClient/Handlers: process, onHrTimer, onFileBufferingFinished and the delayed packing of
--     Dispatcher.cpp. The handlers run in any order, one behind the other: process, onHrTimer and
--     onFileBufferingFinished hold the mutex of the client, the delayed packing does not, and what
--     may come between its reads is in FtpClient/Race. A null `file` that is dereferenced is none,
--     and so is a name read behind the table of the names of the states.
--   Routing/Endpoint, Routing/Rules: EndpointVariant and RoutingRules.cpp of
--     components/wifi_uart_bridge/wifi_uart_bridge, over the sorted vector of Routing/Table;
--     Routing/Map is what the table stands for. Routing/Mavlink: the static rules and the UDP
--     clients of MavlinkRouting.cpp. Routing/Notify: notifyAsImpl of Receiver.cpp, over receivers
--     that are callbacks on a world of their own with the table in it. A buffer is the offset of its
--     first byte and its bytes (Container/Slice, for Buffer.hpp and Buffer.impl).
--   Mavlink/GsNetwork: components/mav/priv_include/Microservice/GsNetwork.cpp and GsNetwork.impl,
--     the sockets on behalf of the autopilot: its requests (GsNetwork/Handlers) and the messages to
--     it (GsNetwork/Pack, GsNetwork/Chunks).
--   Mavlink/Dispatcher: components/mav/priv_include/Dispatcher.cpp, Unmarshalling.cpp and
--     Microservice/Aggregate.impl. Dispatcher/Parse says which messages are in the bytes, and
--     Dispatcher/Drain repeats the calls of a receiver as notifyAsImpl does.
--   Module: modules, fields, values and results of components/module/module/Types.hpp, Variant.hpp
--     and Parameter/Result.hpp. Module/Description: the table of Parameter/Parameter.cpp with its
--     checks at compile time (Description/Lookup). Module/Parameter: the instances of parameters and
--     their calls in the same file, with its static variables as one state. Module/Sd:
--     Parameter/MemoryProvider/SdMemoryProvider.cpp; Sd/Laws says what it relies on of the card and
--     of cJSON, Sd/Items follows the children of an object. Module/ModuleBase: ModuleBase.hpp and
--     ModuleBase.cpp, a callback being a function on what it captures and on the state. The field
--     `module` of a description is owner.
--   Wifi: components/wifi/wifi/Sta.cpp (Wifi/Sta, Wifi/Credentials) and Ap.cpp (Wifi/Ap).
--   Mavlink/Wifi: Microservice/Wifi.cpp with Helper/WifiConfigAp.cpp, MavlinkCommandLong.cpp and
--     MavlinkCommandAck.cpp. Mavlink/ApVer: Microservice/ApVer.cpp.
--   Version: components/version/VersionParser.cpp and the read loop of version.cpp.
--   Container: CircularBuffer.hpp, PosArray.hpp and CircularSwap.hpp (Container/Swap) of
--     components/utility/utility/cont.
--   The modules whose names end in Tests have the concrete inputs; Routing/Encoded gives them an
--     order of endpoints.
--
-- Fuel. FlushingBufferFileSystem::append loops on fuel of twice the buffer's length and 2: each two
-- rounds take at least one byte. FileSystemTransferImplementor loops on fuel of the file's size and
-- 1: each round takes at least one byte. RoutingRules::find calls itself on fuel 2, since an
-- alternative has no alternatives. The iteration over a CircularBuffer has fuel of its size and 1,
-- and so has the reset of a PosArray. The recursion of notifyAsImpl has fuel that the theorem
-- gives; the inner loop of Dispatcher/Drain and GsNetwork/Chunks has fuel of more than the bytes.
-- The loops over the pages of a flash memory have fuel of the bytes and 1. That the fuel is enough
-- is part of the theorems, which say what is returned.
--
-- Parameters: the address that `new` returns, the numbers of the MAVLink dialect, the work queue,
-- the addresses of asio with their equality and their bytes, the socket API, the codec of MAVLink
-- messages and its parser of single bytes, what microservices and receivers do, the flash driver,
-- the order of the variant library, whose laws are those of a strict total order, the calls of the C
-- library on the file of parameters with the card below it, cJSON, MD5, and the network stack with
-- wifiStaConnect.
--
-- Not modelled: logging, mutexes and tasks, the locks of routes, sockets, the Wi-Fi driver, HTTP, the
-- camera and its recorder, tracking, the commands of the flash chip, the packing of MAVLink messages
-- into bytes, the memory that cJSON takes, and vendored libraries: they are calls of the platform's
-- drivers or copies of other projects.
mod Base
pub mod Storage
pub mod Process
pub mod Mavlink
pub mod Routing
pub mod Version
pub mod Container
pub mod Flash
pub mod Module
pub mod Wifi
