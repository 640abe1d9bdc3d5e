-- ===== src/Lib.antt =====
-- A model of the ProcessingCommon library: the code behind its terminal widgets, its helpers for
-- texts and files, its pool of threads, its child processes and its network clients, and what holds
-- of them.
--
-- The parts, and how they work together:
-- * KeyUser (KeyUser.h, KeyUser.cpp): a key press and the checks of keys, in KeyUser.antt and
--   KeyUser/Checks.antt; the other operators in KeyUser/Operators.antt; the UTF-8 conversions
--   strToUtf, utfToStr and utfStrAdd in KeyUser/Utf8.antt.
-- * ListIdx (ListIdx.h, ListIdx.cpp): a cursor in a window over a list. ListIdx.antt has a function
--   for each method, ListIdx/Keys.antt has keyProcess, which asks the checks of keys, and
--   ListIdx/Print.antt has winEndPrint and cursorPrint. ListIdx/History.antt runs sequences of calls.
-- * Widget (widgets-term/Widget.h, widgets-term/Widget.cpp): the base class of the widgets, and
--   strPadCutTo, in Widget.antt.
-- * TextBox (widgets-term/TextBox.h, widgets-term/TextBox.cpp): a line of text with a selection.
--   Its two ends are list indices over the text and the place behind it. TextBox.antt has the
--   settings, the clipboard and selectionReplace, TextBox/Jump.antt navigate and cursorJump,
--   TextBox/Keys.antt keyProcess, which passes page keys on to the list index, and TextBox/Print.antt
--   print.
-- * LibDspc (LibDspc.cpp): toHexStr, toHex and isValidSha256 in LibDspc/Hex.antt; strReplace, trim
--   and strToVecStr in LibDspc/Strings.antt; urlToParts, typeIp and isValidEmail in LibDspc/Url.antt;
--   hexDump in LibDspc/Dump.antt.
-- * ThreadPooling (ThreadPooling.h, ThreadPooling.cpp): a broker that hands processes over to
--   workers, in ThreadPooling.antt. ThreadPooling/Interleaving.antt has the steps of its threads,
--   with the calls of process and shutdown as the framework makes them.
-- * MsWaiting (MsWaiting.h, MsWaiting.cpp): a timer, in MsWaiting.antt.
-- * EspLedPulsing (EspLedPulsing.h, EspLedPulsing.cpp): a blinking LED, in EspLedPulsing.antt.
-- * FileExecuting (FileExecuting.h, FileExecuting.cpp): chains of child processes. An object that
--   runs a child is an `Exec`: FileExecuting/Io.antt has its sending and reading,
--   FileExecuting/Auto.antt autoSource and autoSink, FileExecuting/Child.antt process, shutdown and
--   childStateRecord. One without is a `Container`: FileExecuting/Config.antt has its configuration
--   and states, FileExecuting/Results.antt boolRet, intRet and sigSend. FileExecuting/Arguments.antt
--   has the copies of the argument lists.
-- * EventListening (EventListening.h, EventListening.cpp): messages of TCP clients, in
--   EventListening.antt.
-- * DnsResolving (DnsResolving.h, DnsResolving.cpp): a resolution with libc-ares, in
--   DnsResolving.antt.
-- * MailSending (MailSending.h, MailSending.cpp): a mail sent with libcurl, in MailSending.antt.
-- * HttpRequesting (HttpRequesting.h, HttpRequesting.cpp): an HTTP request, from its URL and the
--   resolution of its host on, in HttpRequesting.antt; easyHandleCurlConfigure and the destructor in
--   HttpRequesting/Configure.antt; the sessions that requests share, sessionCreate and
--   sessionTerminate, in HttpRequesting/Sessions.antt; the multi handle in HttpRequesting/Multi.antt;
--   the way from the URL to the options of TLS in HttpRequesting/Secured.antt.
-- * PhyAnimating (PhyAnimating.h, PhyAnimating.cpp): a process with a Qt window, in
--   PhyAnimating.antt; the functions that put widgets into the window, in PhyAnimating/Widgets.antt.
-- * LibDriverPlatform (LibDriverPlatform.h, LibDriverPlatform.cpp): threads of POSIX and Windows,
--   in LibDriverPlatform.antt.
-- * LibFilesys (LibFilesys.cpp): dirCreate and the locking of flags, in LibFilesys.antt; fdCreate
--   and lockDirDefaultOpen in LibFilesys/Files.antt; fileCopy, strToFile and their like in
--   LibFilesys/Content.antt.
-- * Res (Res.cpp, Res.h): a table of resources, in Res.antt.
-- Common.antt and its children hold the lists over the native numbers, the Boolean tests, the
-- machine words and the operations of std::string that the parts share.
--
-- Conventions. A record stands for an object, a method returns the new object and its result, and
-- `none` is an exception or an index out of range. A text is a list of bytes or of code points. The
-- integers are the native ones with their wrap-around written out. `char` is signed, as on x86.
-- UTF-8 has no surrogates and no code points above 0x10ffff.
--
-- Fuel. The loop of cursorJump runs on a fuel of 65537, since its 16-bit position changes by one in
-- each round and stops at the end of the text. The loop of strToVecStr takes a character or more in
-- each round, so the length of the text is enough.
--
-- The loop of intSend sends a byte or more in each round but the last, and those of autoSource read
-- one or more of 512 bytes, so these numbers are enough as fuel; autoSink has at most 23 rounds. A
-- line of hexDump shows a byte or more, if it has columns, so the number of the bytes is enough.
--
-- Parameters. What the operating system, libcurl, libc-ares, Qt, the allocator, the JSON parser and
-- the clock answer to the code is an argument of the functions, in the order of the calls. The size
-- of a SHA-256 digest is CryptoPP's. So is dInfo, which the framework defines, for hexDump. What
-- the processing framework reports to the thread pool is an argument of its functions: the requests
-- that the pipe delivers, whether a process is in progress after its tick, whether a worker could
-- be created or has shut down. So are the time that millis returns, and whether the pin of the LED
-- could be set up. A write to a file that is open is taken as complete, and what is handed over to
-- write() or send() for a copy of a child's output is recorded as handed over.
--
-- Not modelled: the rest of LibDspc.cpp and of LibFilesys.cpp; the code that a forked child runs up
-- to execvpe; LibTime, which wraps the clock and the formats of the platform; JsonProcessing,
-- KeyFiltering and TclapOutput, which are interfaces or output.
pub mod Common
pub mod DnsResolving
pub mod EspLedPulsing
pub mod EventListening
pub mod FileExecuting
pub mod HttpRequesting
pub mod KeyUser
pub mod LibDriverPlatform
pub mod LibDspc
pub mod LibFilesys
pub mod ListIdx
pub mod MailSending
pub mod MsWaiting
pub mod PhyAnimating
pub mod Res
pub mod TextBox
pub mod ThreadPooling
pub mod Widget
