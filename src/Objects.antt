-- ===== src/Objects.antt =====
-- What a user of the library holds of a message: src/http/server/{request,response}.{h,cpp} and
-- src/http/client/{request,response}.{h,cpp}. An object that is sent from (a server's response, a
-- client's request) keeps what its user has put into it until the handler of the connection takes it;
-- its callbacks into the handler, and those of the constructors for HTTP/2, are calls that the handler
-- and the stream make. `posted` lists what has been handed to the io_service, in order. A callback of
-- the user is known by whether it is set.
pub mod Local
pub mod Remote
pub mod ClientResponse
mod Tests
