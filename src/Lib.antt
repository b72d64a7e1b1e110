-- ===== src/Lib.antt =====
-- Verification library of linyaps: versions and references of packages, the configuration of
-- repositories, the cache of installed layers, what an application runs on, and the tasks of the
-- package manager.
--
-- A package has a version, which the texts of references, the records of packages and the refs of
-- the repository carry. `Version::parse` reads it as one of three kinds; the kinds are compared with
-- each other. References name a package; a fuzzy one leaves parts open. The repository of layers
-- keeps its configuration and a cache of what is installed, and queries of the cache are answered
-- in the order of versions. To run an application, its reference is resolved to the layers of its
-- base, its runtime and their extensions, and these are put into the configuration of its
-- container. The package manager installs and removes packages in tasks, which a queue runs one
-- after the other.
--
-- Files, with paths from the root of the repository below libs/linglong/src/linglong:
--   Package/VersionV1    package/versionv1.{h,cpp}: `VersionV1`, its `parse`, `semanticMatch`,
--                        `toString` and operators. Package/Numeral and Package/Pattern are its
--                        regular expression, and that of `Version::validateDependVersion`.
--   Package/VersionV2    package/versionv2.{h,cpp}, and the operators between the two kinds: `lt12`
--                        has a VersionV1 on the left and a VersionV2 on the right.
--   Package/FallbackVersion  package/fallback_version.{h,cpp}; Package/Mixed has the operators with
--                        the other kinds.
--   Package/Version      package/version.{h,cpp}: `Version::parse`, `filterByFuzzyVersion` and what
--                        is passed on to the kinds.
--   Package/Architecture, Package/Reference, Package/FuzzyReference
--                        package/architecture, reference and fuzzy_reference.{h,cpp}; the modules
--                        Match below them and Package/Fields are the regular expressions.
--   Package/Info         the fields read of a generated type, `PackageInfoV2`.
--   Repo/Config          repo/config.cpp, and `getOrderedConfig`, `getHighestPriorityRepos`,
--                        `getRepoByAlias`, `promotePriority`, `recoverPriority` of
--                        repo/ostree_repo.cpp.
--   Repo/Cache           repo/repo_cache.{h,cpp}: the object with its file; each method gives its
--                        result and the object after it. Repo/Cache/Query has `queryLayerItem`.
--   Repo/Remote          repo/ostree_repo.cpp: `listRemote`, `matchReference`, and what `clearReference`
--                        takes from a remote repository.
--   Repo/Resolve         the rest of `clearReference`, `getRemoteReferenceByPriority`, `listLocal`,
--                        `listLocalLatest`.
--   Repo/Store           the layers that are installed: `getLayerItem`, `markDeleted`, `remove`, on a
--                        record of the cache, the refs and the directories.
--   Repo/Modules, Repo/Merge  the lists of modules, `getMergedModuleDir`, and `mergeModules`.
--   Repo/Update          `setConfig`, `updateConfig`, `updateOstreeRepoConfig`, with the transactions
--                        of Utils/Transaction.
--   Runtime              runtime/run_context.{h,cpp}: Runtime/Layer has `RuntimeLayer` and
--                        `resolveExtension`, Runtime/Layers `RunContext::resolveLayer`,
--                        Runtime/Environment the variables that extensions add, and
--                        Runtime/RunContext both forms of `resolve`, over a record of what they ask
--                        of the repository, which Runtime/Store fills from Repo. Runtime/Extension is
--                        extension/extension.{h,cpp}, and Runtime/Mounts what `fillContextCfg` puts
--                        into the configuration of a container.
--   Service/Task, Service/Queue  package_manager/package_task.{h,cpp}: `PackageTask` and
--                        `PackageTaskQueue`, with the events that the queue posts to the event loop.
--   Utils/Strings, Utils/BashQuote, Utils/Transaction
--                        strings.h, bash_quote.h and transaction.h of libs/utils/src/linglong/utils.
--   Error                the result type; one constructor for each message.
--   Qt, Semver           parameters: the functions of Qt's text classes, and those of the semantic
--                        version library, with records of laws for their documented behaviour.
--   Prelude              shared names, lists, texts, integers, a sort, and the best of a list.
--   Samples              concrete functions for the parameters, and the theorems at inputs.
--
-- Choices. Numbers are natural numbers; a 64-bit pattern that the code reads as signed is placed by
-- `signed`, and the difference of two `int`s wraps around at 32 bits (where it does, it is
-- undefined in C++, and no result is about it). What is undefined in C++, such as the first item of
-- an empty vector, has a value that is named at its definition, or no value (`none`). The loop of
-- `FallbackVersion::compare` runs on the count of the parts that are left, so that it comes to its
-- end; all else is by recursion on a list. `std::sort` is an insertion sort, `std::stable_sort`
-- too. What the file system and OSTree answer comes with the call, also that the cache file or
-- config.yaml is cut off as it is written. The HTTP client of the package list is a parameter, too.
-- A task's share of a stage, a `double`, is kept as a quotient. Texts are sequences of units, and
-- letters of either case are those of ASCII.
--
-- `qFatal`, and an exception that leaves a function that may throw none, end the program; here they
-- are errors of their own.
--
-- Not modelled: YAML and JSON, files, mounts and processes, D-Bus, HTTP, what of ostree_repo.cpp
-- pulls, imports and exports, the rest of the package manager, the rest of the configuration
-- of containers and their processes, the builder, the command line client, and generated code.
pub mod Prelude
pub mod Error
pub mod Utils
pub mod Qt
pub mod Semver
pub mod Package
pub mod Repo
pub mod Service
pub mod Runtime
pub mod Samples
