-- ===== src/Lib.antt =====
-- The verification library of cloudstorage, one interface to the object stores of several providers.
--
-- The program. A Store (store.go) lists, reads, writes and deletes objects of a bucket; an Object is
-- opened by copying it to a cached copy on the local disk, and brought back by Sync or Close. The
-- stores are made by providers from a registry (registry.go) and a configuration (store.go). What the
-- stores share are queries with filters (query.go), iterators over pages with retries
-- (iterator.go), and helpers on etags, content types and paths (file_helper.go).
--
-- Which file models which part.
-- - Base and its children: lists, byte strings, tables, and `Act`, a function of a state that returns
--   a value or an error, with the state beside both. A string is the list of its bytes.
-- - Strings: the functions of the packages strings and path that the code uses.
-- - Os: the file system as a table of paths, inodes and open files. Each call may meet a fault, which
--   the state lists in advance; a fault while bytes move says how many moved. So a theorem over all
--   states holds for all failures. Os.exists is Exists of file_helper.go.
-- - Etag: CleanETag. FileHelper: the rest of file_helper.go. Query: query.go and the order of
--   objects. Iterator: iterator.go. Config: JwtConf of store.go, over the decoder of Base64.
--   Registry: registry.go and NewStore. Bufio: the buffer of the package bufio over a sink. Csbufio:
--   csbufio/reader.go and csbufio/writer.go.
-- - Transfer: Copy and Move of store.go, over an interface of stores. CacheCleaner: cachecleaner.go.
-- - LocalFs: localfs/store.go; LocalFs.Object is its type object, LocalFs.Store its LocalStore,
--   LocalFs.Transfers that store under Copy of store.go.
-- - Google: google/store.go. Client is what it calls of the storage package; Object, Opening (Open,
--   Read, Write), Pushing (Sync) and Closing (Close, Release, Delete) are its type object, Store is
--   GcsFS with its iterator, and storeutils/get.go and storeutils/utils.go.
--   TransferJobs is storeutils/transfer.go.
-- - Cloud: the type object that awss3/store.go and azure/store.go have in the same words: Opening (Open,
--   Read, Write), Syncing (Sync, over the upload of a file) and Closing (Close, Release). Cached: what
--   Open of these two and of google/store.go does to the cached copy.
-- - S3: awss3/store.go. Client is what it calls of the SDK, Store its FS, Object the methods of an object
--   with its downloads and uploads, Writer its NewWriter. The uploader behind a writer reads its pipe to
--   the end, or stops after a number of bytes.
-- - Azure: azure/store.go, in the same layout; Upload is uploadMultiPart, Upload.Writer the
--   azureWriteCloser, and BlockId is makeBlockID. A write to the pipe of a writer runs the goroutine
--   behind it to its next read; a write that nobody reads is an error of its own.
-- - Lifecycle: the interface Object of store.go as a record of methods, and the states that calls of
--   them lead to.
-- - Sftp: sftp/store.go. Names and Addr are its functions on names, Client is its store, Object its
--   objects.
-- - Connecting of S3, Azure, Google and Sftp: the client for a configuration (NewClient of awss3/store.go
--   and azure/store.go, google/client.go, NewClientFromConfig of sftp/store.go) and the provider of the
--   package, over what they call of other packages. Google.ApiStore: google/apistore.go. Drivers: the
--   providers of all packages together, and the stores that NewStore of store.go makes of them.
-- - Tests: runs, and the theorems at concrete inputs.
--
-- A method of an object acts on the object and the world beside it. Services, the table of MIME types,
-- JSON, the settings of a configuration, the context of a call and the sleep of Backoff are parameters,
-- and what a theorem needs of them is a hypothesis, such as IsBucket, IsStored or IsBlobService.
--
-- Bounds and fuel. An uint64 wraps around at 2^64; sizes and times are natural numbers. CleanETag has
-- one more than the length of the etag as fuel. ObjectsAll, Folders of google/store.go, the loop of
-- uploadMultiPart, io.Copy in Open and List of the transfer jobs run on fuel that the caller gives, and
-- the theorems on them say how much is enough; Sync of azure/store.go gives uploadMultiPart one pass
-- more than there are bytes. The retries of Next, Open and Sync are counted by the code itself.
-- listFiles of sftp/store.go has fuel for the depth of the directories; a walk of the local file system
-- reads the table of paths.
--
-- Not modelled: logging, permissions of files, locks (each call is a step of its own), testutils and the
-- example program. A directory that is opened for reading fails here at once, in Go at the first read;
-- a nil map, on which EnsureContextType panics, is no table of the model.
pub mod Base
pub mod Strings
pub mod Etag
pub mod Query
pub mod Iterator
pub mod Base64
pub mod Config
pub mod Registry
pub mod Transfer
pub mod CacheCleaner
pub mod Sftp
pub mod Azure
pub mod Google
pub mod Cached
pub mod Cloud
pub mod S3
pub mod Lifecycle
pub mod Os
pub mod FileHelper
pub mod Tests
pub mod LocalFs
pub mod Bufio
pub mod Csbufio
pub mod Drivers
