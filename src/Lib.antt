-- ===== src/Lib.antt =====
-- hauler fetches images, charts and files into a store on disk, an OCI image layout, and moves
-- that store across an air gap. This library models the parts that decide what a store holds.
--
-- The store's index (pkg/content/oci.go): Content.Index has the state of the type OCI (the name
-- map, the loaded index, index.json) with loadIndexLocked and saveIndexLocked;
-- Content.Index.Operations has AddIndex, Resolve, Fetcher, Walk, RemoveFromIndex,
-- UpdateAnnotations and the index part of Push; Content.Descriptor has descriptorsEqual,
-- Content.Reference the Parse of pkg/reference/reference.go, and Consts the kinds of pkg/consts.
-- Content.Blob has WriteBlob, Push and the writers; the leader of a shared download and every
-- answer of the file system are arguments.
--
-- The layout over it (pkg/store): Store.Check models check.go, Store.Remove and Store.CleanUp the
-- functions RemoveArtifact and CleanUp of store.go, Store.Copy and Store.CopyAll its copies to
-- another target, Store.Inventory models inventory.go. Store.Catalog specifies AddIndex,
-- RemoveArtifact and Resolve as the operations of a plain map, which the name map and index.json
-- together represent. Store.Manifest has what they share: the decoded fields of a manifest, the
-- files of the blobs, and go-digest as a parameter. Each of these walks calls the index, as in the
-- code: CleanUp and CopyAll load it, Copy resolves in it.
--
-- Additions (pkg/store/store.go): Store.Add has the type Layout, the registry's answers as
-- records, and a small monad over the store; Store.Add.Writing has writeLayer, writeImageBlobs,
-- writeImage, writeIndexBlobs and writeIndex, Store.Add.Images has AddImage, AddLocalImage and
-- what they save beside an image, Store.Add.Artifacts has AddArtifact, AddArtifactCollection,
-- Flush, Identify and the store's id. The other modules below Store.Add have the lemmas on these
-- writes.
--
-- The commands (cmd/hauler/cli/store/add.go and sync.go): Command.Verify has Config of
-- pkg/cosign/verifier.go, pinDigest, resolveAndVerify and logVerifyFailure; Command.Rewriting has
-- rewriteReference, Command.Images AddImageCmd, storeImage, storeLocalImage and runImageJobs over
-- Store.Add.Images and Retry; Command.Charts has traverseChartLevels and dedupeImageJobs,
-- Command.Discovery the images of a chart and runChartJobs; Command.Names has
-- pkg/reference/reference.go, Command.Precedence and Command.Resolving resolveImageJobs,
-- Command.Documents the other jobs of a manifest, Command.Content its processContent;
-- Command.Files has AddFileCmd and storeFile.
--
-- Around them: Command.Remove is RemoveCmd of cmd/hauler/cli/store/remove.go over Store.Remove and
-- Store.CleanUp; Retry is pkg/retry/retry.go; Flags is concurrency.go, retries.go and
-- ignore_errors.go of internal/flags; Archives.Split is SplitArchive and joinFiles of
-- pkg/archives, Archives.Naming the names of chunks and JoinChunks; Paths has securePath and the
-- path functions that Mapper, internal/mapper, uses to choose a file. Base has text as bytes,
-- dictionaries and the shared lemmas; Tests has concrete runs.
--
-- Fuel: the walks of a descriptor graph (Check, CleanUp, Copy) take the depth that they may
-- descend as a number and return none without fuel; the theorems with a rank say that more fuel
-- than the depth is enough. traverseChartLevels goes ten levels down, as maxChartDepth says, and
-- the model counts them. SplitArchive takes one step for each read, and one more than the bytes of
-- the archive are enough. Sizes are signed, file sizes and counts natural numbers; only
-- BlobConcurrencyFor can leave 64 bits, and its wrap-around is written out.
--
-- Assumptions of the model: decoding what was encoded as JSON gives it back; a load is modelled as
-- of a process whose earlier index, if it has one, agrees with index.json (IsSynced of
-- Content.Index), since json.Decode merges into that index and its shared annotation maps, which a
-- failed save can leave different; annotation maps of stored descriptors are not nil; TrimSpace
-- and ToLower are read on ASCII; a Range over a map goes through its list; the goroutines over the
-- layers of a manifest, the jobs of a run and the charts of a level run in the order in which they
-- start; what a chart's fetch answers is a function of its job; directories and readers close
-- without an error where a result would only be logged.
--
-- Not modelled: SyncCmd (fetching and opening manifests), the rendering and storing of a chart by
-- Helm, the signature check of cosign, the registry client and servers (calls of libraries that
-- are not in the repository), the commands info, save, load, copy and extract, audit entries,
-- logging and progress.
pub mod Archives
pub mod Base
pub mod Command
pub mod Consts
pub mod Content
pub mod Flags
pub mod Mapper
pub mod Paths
pub mod Retry
pub mod Store
pub mod Tests
